-- ===== src/Config/Tls.antt =====
-- pkg/config/tlsparams.go: `Config`, which loads one pair of files, or all pairs of two directories.
-- The files and the pairs that crypto/tls reads are inputs; a certificate is a number.
use simult.Prelude.{
  ℕ, suc, ◌≡◌, sym, ap, ◌∙◌, Bool, true, false, not, Option, none, some, List, [], ◌∷◌, ◌++◌,
  if◌then◌else◌, is_some, length, Bytes, codes, ◌=ᵇ◌, drop_last, Result, ◌>>=◌, ◌>>◌, fail_if,
  require, ok_parts, ok-injective, ok,
}
use simult.Config.{TlsParams}

pub data TlsError : Type 0 where
  open_error stat_error different_type readdir_error load_error : TlsError

pub record FileInfo : Type 0 where
  pub name : Bytes
  pub is_dir : Bool

-- A file that is open; `none` is an error of `Stat` or of `Readdir`.
pub record File : Type 0 where
  pub stat : Option Bool
  pub readdir : Option (List FileInfo)

pub record Disk : Type 0 where
  pub open_path : Bytes → Option File
  pub load_x509_key_pair : Bytes → Bytes → Option ℕ

pub record TlsConfig : Type 0 where
  pub certificates : List ℕ
  pub prefer_server_cipher_suites : Bool

pub dot_if_empty : Bytes → Bytes
dot_if_empty path = if path =ᵇ [] then codes "." else path

-- A text without the end of which the bytes are given from the last to the first.
abbrev pub without_end : Bytes → Bytes → Option Bytes
without_end [] s = some s
without_end (c ∷ cs) s = elim (drop_last c s) [ none ↦ none | some t ↦ without_end cs t ]

-- The name of a certificate's file without its extension.
pub stem : FileInfo → Option Bytes
stem f = if f.is_dir then none else without_end (codes "trc.") f.name

pub load_pair : Disk → Bytes → Bytes → Bytes → Result TlsError ℕ
load_pair disk cert_path key_path name = require load_error (
    disk.load_x509_key_pair (cert_path ++ (codes "/" ++ (name ++ codes ".crt")))
      (key_path ++ (codes "/" ++ (name ++ codes ".key"))))

-- A round of the loop, for what the rounds behind it return.
pub add_pair :
    Disk → Bytes → Bytes → Option Bytes → Result TlsError (List ℕ) → Result TlsError (List ℕ)
unfolding load_pair
add_pair disk cert_path key_path none rest = rest
add_pair disk cert_path key_path (some name) rest = do
  cert ← load_pair disk cert_path key_path name
  certs ← rest
  ok (cert ∷ certs)

-- The loop over the entries of the directory.
pub load_dir : Disk → Bytes → Bytes → List FileInfo → Result TlsError (List ℕ)
unfolding add_pair stem
load_dir disk cert_path key_path [] = ok []
load_dir disk cert_path key_path (f ∷ fs) =
    add_pair disk cert_path key_path (stem f) (load_dir disk cert_path key_path fs)

-- A file that is open, and whether it is a directory.
pub open_file : Disk → Bytes → Result TlsError (File × Bool)
open_file disk path = do
  f ← require open_error (disk.open_path path)
  d ← require stat_error f.stat
  ok (f, d)

pub load_all : Disk → Bytes → Bytes → File → Bool → Result TlsError TlsConfig
unfolding load_dir
load_all disk cert_path key_path cert_file false = do
  cert ← require load_error (disk.load_x509_key_pair cert_path key_path)
  ok (record { certificates = cert ∷ []; prefer_server_cipher_suites = false })
load_all disk cert_path key_path cert_file true = do
  fs ← require readdir_error cert_file.readdir
  certs ← load_dir disk cert_path key_path fs
  ok (record { certificates = certs; prefer_server_cipher_suites = true })

pub config : Disk → TlsParams → Result TlsError TlsConfig
unfolding dot_if_empty open_file load_all
config disk t = do
  (cert_file, cert_dir) ← open_file disk (dot_if_empty t.cert_path)
  (key_file, key_dir) ← open_file disk (dot_if_empty t.key_path)
  fail_if (not (if cert_dir then key_dir else not key_dir)) different_type
  load_all disk (dot_if_empty t.cert_path) (dot_if_empty t.key_path) cert_file cert_dir

abbrev count : List FileInfo → ℕ
count [] = 0
count (f ∷ fs) = if is_some (stem f) then suc (count fs) else count fs

-- Without an error, every certificate of the directory is loaded.
pub length-load_dir :
    (disk : Disk) (cert_path key_path : Bytes) (fs : List FileInfo) {certs : List ℕ}
    → load_dir disk cert_path key_path fs ≡ ok certs
    → length certs ≡ count fs
unfolding load_dir add_pair
length-load_dir disk cert_path key_path [] h = ap length (sym (ok-injective h))
length-load_dir disk cert_path key_path (f ∷ fs) h =
    go (stem f) (load_dir disk cert_path key_path fs) h
      (λ cs. length-load_dir disk cert_path key_path fs {certs = cs})
  where
    go :
        (o : Option Bytes) (m : Result TlsError (List ℕ)) {certs : List ℕ}
        → add_pair disk cert_path key_path o m ≡ ok certs
        → ((cs : List ℕ) → m ≡ ok cs → length cs ≡ count fs)
        → length certs ≡ (if is_some o then suc (count fs) else count fs)
    go none m h ih = ih _ h
    go (some name) m h ih =
        let (cert, p, h1) = ok_parts (load_pair disk cert_path key_path name) _ h in
        let (cs, q, h2) = ok_parts m _ h1 in ap length (sym (ok-injective h2)) ∙ ap suc (ih cs q)
