-- ===== src/Program/Invariant.antt =====
-- The listeners of an old and a new application, and the accepters that they hold.
use mathlib.Core.Path.{subst}
use simult.Prelude.{
  ℕ, ◌<◌, ◌≡◌, refl, sym, ◌∙◌, ◌≢◌, ◌⊎◌, inl, inr, Bool, true, false, ◌&&◌, some, List, is_some,
  Bytes, codes,
}
use simult.Listener.{Net, activate as activate_on_net}
use simult.Listener.Holders.{activate_quiet}
use simult.Config.Options.{find}
use simult.Program.{Ports, activate_port}

-- The listener `i` is one of the address `a`, and its accepter is open.
pub record Port (p : Ports) (a : Bytes) (i : ℕ) : Type 0 where
  pub below : i < p.made
  pub network : (p.listener i).opts.network ≡ codes "tcp"
  pub address : (p.listener i).opts.address ≡ a
  pub b : ℕ
  pub holds : (p.listener i).accr ≡ some b
  pub known : b < p.net.fresh
  pub opened : (p.net.accepters b).opened ≡ true

-- The address `a` has the listener `i` in one of the two.
abbrev pub In : List (Bytes × ℕ) → List (Bytes × ℕ) → Bytes → ℕ → Type 0
In o n a i = (find a o ≡ some i) ⊎ (find a n ≡ some i)

-- Each address has one accepter, each accepter that is open one address, and the mark is set where
-- both applications have the address.
pub record Inv (o n : List (Bytes × ℕ)) (p : Ports) : Type 0 where
  pub port : (a : Bytes) (i : ℕ) → In o n a i → Port p a i
  pub apart :
      (a a' : Bytes) (i i' : ℕ)
      → In o n a i
      → In o n a' i'
      → (p.listener i).accr ≡ (p.listener i').accr
      → a ≡ a'
  pub ids : (a a' : Bytes) (i j : ℕ) → find a o ≡ some i → find a' n ≡ some j → i ≢ j
  pub same :
      (a : Bytes) (i j : ℕ)
      → find a o ≡ some i
      → find a n ≡ some j
      → (p.listener i).accr ≡ (p.listener j).accr
  pub shared :
      (a : Bytes) (i b : ℕ)
      → In o n a i
      → (p.listener i).accr ≡ some b
      → (p.net.accepters b).handler.shared ≡ (is_some (find a o) && is_some (find a n))
  pub owned :
      (b : ℕ)
      → b < p.net.fresh
      → (p.net.accepters b).opened ≡ true
      → (a : Bytes) × (i : ℕ) × In o n a i × ((p.listener i).accr ≡ some b)

swap-In : (o n : List (Bytes × ℕ)) (a : Bytes) (i : ℕ) → In o n a i → In n o a i
swap-In o n a i (inl h) = inr h
swap-In o n a i (inr h) = inl h

-- The two applications stand on equal footing.
pub Inv-swap : (o n : List (Bytes × ℕ)) (p : Ports) → Inv o n p → Inv n o p
Inv-swap o n p v = record {
  port = λ a i m. v.port a i (swap-In n o a i m);
  apart = λ a a' i i' m m'. v.apart a a' i i' (swap-In n o a i m) (swap-In n o a' i' m');
  ids = λ a a' i j h k e. v.ids a' a j i k h (sym e);
  same = λ a i j h k. sym (v.same a j i k h);
  shared = λ a i b m h.
      v.shared a i b (swap-In n o a i m) h ∙ and_comm (is_some (find a o)) (is_some (find a n));
  owned = λ b q h. (let (a, i, m, k) = v.owned b q h in (a, i, swap-In o n a i m, k));
}
  where
    and_comm : (s t : Bool) → (s && t) ≡ (t && s)
    and_comm true true = refl
    and_comm true false = refl
    and_comm false true = refl
    and_comm false false = refl

-- The invariant reads of the network only what is open and what is marked.
Inv-net :
    (o n : List (Bytes × ℕ)) (p : Ports) (net : Net)
    → net.fresh ≡ p.net.fresh
    → ((b : ℕ)
        → ((net.accepters b).opened ≡ (p.net.accepters b).opened)
          × ((net.accepters b).handler.shared ≡ (p.net.accepters b).handler.shared))
    → Inv o n p
    → Inv o n (record p { net = net })
Inv-net o n p net f q v = record {
  port = λ a i m.
      (let t = v.port a i m in
        record {
          below = t.below;
          network = t.network;
          address = t.address;
          b = t.b;
          holds = t.holds;
          known = rw f t.known;
          opened = (q t.b).0 ∙ t.opened;
        });
  apart = v.apart;
  ids = v.ids;
  same = v.same;
  shared = λ a i b m h. (q b).1 ∙ v.shared a i b m h;
  owned = λ b l h. v.owned b (subst (λ k. b < k) f l) (sym (q b).0 ∙ h);
}

pub activate_port-Inv :
    (o n : List (Bytes × ℕ)) (p : Ports) (i : ℕ) → Inv o n p → Inv o n (activate_port i p)
unfolding activate_port
activate_port-Inv o n p i v =
    let (f, q) = activate_quiet i (p.listener i) p.net in
    Inv-net o n p (activate_on_net i (p.listener i) p.net) f q v
