-- ===== src/HttpCommon/Header/Laws.antt =====
-- What `Get` answers behind `Set`, `Add` and `Del`.
use simult.Prelude.{
  ◌≡◌, refl, Bool, true, false, List, [], ◌∷◌, if◌then◌else◌, Bytes, ◌=ᵇ◌, =ᵇ-sound, =ᵇ_comm,
}
use simult.HttpCommon.Header.{
  Header, values, first_or_empty, canonical_key, get, set_values, set, del_key, del,
}

values-set_values :
    (hdr : Header) (key other : Bytes) (vs : List Bytes)
    → values other (set_values hdr key vs) ≡ (if key =ᵇ other then vs else values other hdr)
unfolding values set_values
values-set_values [] key other vs = refl
values-set_values ((k, ws) ∷ hdr) key other vs =
    go (k =ᵇ key) refl (values-set_values hdr key other vs)
  where
    same :
        (b : Bool)
        → (if b then vs else values other hdr)
          ≡ (if b then vs else (if b then ws else values other hdr))
    same true = refl
    same false = refl

    swap :
        (b c : Bool)
        → k =ᵇ key ≡ false
        → k =ᵇ other ≡ b
        → key =ᵇ other ≡ c
        → (if b then ws else (if c then vs else values other hdr))
          ≡ (if c then vs else (if b then ws else values other hdr))
    swap true true e p q =
        let d : k =ᵇ key ≡ true = rw (=ᵇ-sound k other p, =ᵇ_comm other key) q in cc
    swap true false e p q = refl
    swap false c e p q = refl

    go :
        (b : Bool)
        → k =ᵇ key ≡ b
        → values other (set_values hdr key vs) ≡ (if key =ᵇ other then vs else values other hdr)
        → values other (set_values ((k, ws) ∷ hdr) key vs)
          ≡ (if key =ᵇ other then vs else values other ((k, ws) ∷ hdr))
    go true e ih = rw (e, =ᵇ-sound k key e) (same (key =ᵇ other))
    go false e ih = rw (e, ih) (swap (k =ᵇ other) (key =ᵇ other) e refl refl)

-- A field that is set is read back, and the others are as before.
pub get-set :
    (hdr : Header) (name other v : Bytes)
    → get (set hdr name v) other
      ≡ (if canonical_key name =ᵇ canonical_key other then v else get hdr other)
unfolding get set
get-set hdr name other v =
    rw (values-set_values hdr (canonical_key name) (canonical_key other) (v ∷ []))
      (first (canonical_key name =ᵇ canonical_key other))
  where
    first :
        (b : Bool)
        → first_or_empty (if b then v ∷ [] else values (canonical_key other) hdr)
          ≡ (if b then v else first_or_empty (values (canonical_key other) hdr))
    first true = refl
    first false = refl

values-del_key :
    (hdr : Header) (key other : Bytes)
    → key =ᵇ other ≡ false
    → values other (del_key hdr key) ≡ values other hdr
unfolding values del_key
values-del_key [] key other h = refl
values-del_key ((k, ws) ∷ hdr) key other h = go (k =ᵇ key) refl (values-del_key hdr key other h)
  where
    go :
        (b : Bool)
        → k =ᵇ key ≡ b
        → values other (del_key hdr key) ≡ values other hdr
        → values other (del_key ((k, ws) ∷ hdr) key) ≡ values other ((k, ws) ∷ hdr)
    go true e ih = rw (e, =ᵇ-sound k key e, h) refl
    go false e ih = rw (e, ih) refl

-- A field that is deleted does not change the others.
pub get-del :
    (hdr : Header) (name other : Bytes)
    → canonical_key name =ᵇ canonical_key other ≡ false
    → get (del hdr name) other ≡ get hdr other
unfolding get del
get-del hdr name other h = rw (values-del_key hdr (canonical_key name) (canonical_key other) h) refl
