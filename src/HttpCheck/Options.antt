-- ===== src/HttpCheck/Options.antt =====
-- What `CopyFrom` guarantees of the options.
use simult.Prelude.{
  ℕ, ◌*◌, ◌<◌, ◌≡◌, refl, Option, some, [], ◌∷◌, arith, ℤ, IsPos, Bytes, pos, negsuc,
}
use simult.HttpCheck.{HttpCheckOptions, source_options, copy_from, or_default, rooted, second}

-- The path starts with a slash.
abbrev pub IsRooted : Bytes → Type 0
IsRooted [] = ⊥
IsRooted (c ∷ s) = c ≡ b'/'

pub record IsNormal (o : HttpCheckOptions) : Type 0 where
  pub rooted_path : IsRooted o.path
  pub interval_pos : IsPos o.interval
  pub timeout_pos : IsPos o.timeout
  pub fall_pos : IsPos o.fall_threshold
  pub rise_pos : IsPos o.rise_threshold

or_default-IsPos : (x : ℤ) (d : ℕ) → 0 < d → IsPos (or_default x d)
unfolding or_default
or_default-IsPos (pos n) d h = ground arith
or_default-IsPos (negsuc n) d h = ground arith

rooted-IsRooted : (s : Bytes) → IsRooted (rooted s)
unfolding rooted
rooted-IsRooted [] = refl
rooted-IsRooted (c ∷ s) = ground arith

copy-IsNormal : (src : Option HttpCheckOptions) → IsNormal (copy_from src)
unfolding copy_from
copy-IsNormal src = record {
  rooted_path = rooted-IsRooted (source_options src).path;
  interval_pos = or_default-IsPos (source_options src).interval (10 * second) (omega arith);
  timeout_pos = or_default-IsPos (source_options src).timeout (5 * second) (omega arith);
  fall_pos = or_default-IsPos (source_options src).fall_threshold 3 (omega arith);
  rise_pos = or_default-IsPos (source_options src).rise_threshold 2 (omega arith);
}

or_default_keep : (x : ℤ) (d : ℕ) → IsPos x → or_default x d ≡ x
unfolding or_default
or_default_keep (pos n) d h = ground arith
or_default_keep (negsuc n) d h = absurd (omega arith)

rooted_keep : (s : Bytes) → IsRooted s → rooted s ≡ s
unfolding rooted
rooted_keep [] h = absurd h
rooted_keep (c ∷ s) h = ground arith

copy_keep : (o : HttpCheckOptions) → IsNormal o → copy_from (some o) ≡ o
unfolding copy_from
copy_keep o n = cc (
  rooted_keep o.path n.rooted_path,
  or_default_keep o.interval (10 * second) n.interval_pos,
  or_default_keep o.timeout (5 * second) n.timeout_pos,
  or_default_keep o.fall_threshold 3 n.fall_pos,
  or_default_keep o.rise_threshold 2 n.rise_pos,
)

-- Whatever the source, a nil one included, the copied options have a path that starts with a slash
-- and a positive interval, timeout, fall threshold and rise threshold, and copying them again
-- changes nothing.
pub copy_from_normalises :
    (src : Option HttpCheckOptions)
    → IsNormal (copy_from src) × (copy_from (some (copy_from src)) ≡ copy_from src)
copy_from_normalises src = (copy-IsNormal src, copy_keep _ (copy-IsNormal src))
