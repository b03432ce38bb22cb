-- ===== src/HttpCommon/Header.antt =====
-- Go's `http.Header`, as far as the program uses it: the keys in their canonical form, each with its
-- values, in the order in which they were first added.
pub mod Laws
use simult.Prelude.{
  ◌+◌, ◌-◌, Bool, true, List, [], ◌∷◌, ◌++◌, ◌==◌, if◌then◌else◌, all, Bytes, ◌=ᵇ◌, lower, upper,
}
use simult.HttpCookie.{is_token}

abbrev pub Header : Type 0
Header = List (Bytes × List Bytes)

-- The loop of `CanonicalMIMEHeaderKey`: a letter at the start or behind a dash is a capital.
pub canonical_from : Bool → Bytes → Bytes
canonical_from start [] = []
canonical_from start (c ∷ s) = (if start then upper c else lower c) ∷ canonical_from (c == b'-') s

-- A name that is no token stays as it is.
unfoldable pub canonical_key : Bytes → Bytes
unfolding canonical_from
canonical_key name = if all is_token name then canonical_from true name else name

pub values : Bytes → Header → List Bytes
values key [] = []
values key ((k, vs) ∷ hdr) = if k =ᵇ key then vs else values key hdr

abbrev pub first_or_empty : List Bytes → Bytes
first_or_empty [] = []
first_or_empty (v ∷ vs) = v

-- `Get`, `Add`, `Set` and `Del`.
unfoldable pub get : Header → Bytes → Bytes
unfolding values canonical_key
get hdr name = first_or_empty (values (canonical_key name) hdr)

pub add_value : Header → Bytes → Bytes → Header
add_value [] key v = (key, v ∷ []) ∷ []
add_value ((k, vs) ∷ hdr) key v =
    if k =ᵇ key then (k, vs ++ v ∷ []) ∷ hdr else (k, vs) ∷ add_value hdr key v

pub add : Header → Bytes → Bytes → Header
add hdr name v = add_value hdr (canonical_key name) v

pub set_values : Header → Bytes → List Bytes → Header
set_values [] key vs = (key, vs) ∷ []
set_values ((k, ws) ∷ hdr) key vs =
    if k =ᵇ key then (k, vs) ∷ hdr else (k, ws) ∷ set_values hdr key vs

pub set : Header → Bytes → Bytes → Header
set hdr name v = set_values hdr (canonical_key name) (v ∷ [])

pub del_key : Header → Bytes → Header
del_key [] key = []
del_key ((k, vs) ∷ hdr) key = if k =ᵇ key then hdr else (k, vs) ∷ del_key hdr key

pub del : Header → Bytes → Header
del hdr name = del_key hdr (canonical_key name)
