-- ===== src/Msg/Instance/Fields.antt =====
-- Which texts a property tree holds at which keys, and what the accessors of `Instance` make of it.
use se3313a_lab.Base.{
  String, ◌≡◌, refl, ap, ◌∙◌, ◌≢◌, true, false, none, some, ok, throw, runtime_error, arith,
  text_eq, eq_iff, ℕ,
}
use se3313a_lab.Boost.{Library, is_simple}
use se3313a_lab.Msg.Instance.{
  property_type, property_object, property_sender, property_datetime, required, required_shown,
  get_or_throw, extract_from, to_json, base_json, extract_common_params,
}

-- Two keys that the test tells apart are different.
pub text_ne : (a b : String) → text_eq a b ≡ false → a ≢ b
text_ne a b h = ground (arith, eq_iff a b)

module _ (L : Library) where
  open L use {Tree, Time}

  -- The tree holds the text `v` at the key `k`.
  abbrev pub Field : String → String → Tree → Type 0
  Field k v t = (c : Tree) × (L.find k t ≡ some c) × (L.get_value c ≡ v)

  -- The tree holds a printed time, and a sender.
  abbrev pub Common : Time → String → Tree → Type 0
  Common p s t =
      ((c : Tree) × (L.find property_datetime t ≡ some c)
        × ((q : Time) → L.read_time (L.get_value c) q ≡ L.to_micros p))
      × Field property_sender s t

  pub Field-put : (k v : String) (t : Tree) → is_simple k ≡ true → Field k v (L.put k v t)
  Field-put k v t h = L.find-put k v t h

  pub Field-put_ne :
      (j k v w : String) (t : Tree)
      → is_simple k ≡ true
      → text_eq j k ≡ false
      → Field j w t
      → Field j w (L.put k v t)
  Field-put_ne j k v w t h d (c, found, same) =
      (c, L.find-put_ne j k v t h (text_ne j k d) ∙ found, same)

  pub Common-put :
      (k v : String) (p : Time) (s : String) (t : Tree)
      → is_simple k ≡ true
      → text_eq property_datetime k ≡ false
      → text_eq property_sender k ≡ false
      → Common p s t
      → Common p s (L.put k v t)
  Common-put k v p s t h d e ((c, found, reads), sender) = (
    (c, L.find-put_ne _ k v t h (text_ne _ k d) ∙ found, reads),
    Field-put_ne _ k v s t h e sender,
  )

  pub Common-put_u16 :
      (k : String) (n : ℕ) (p : Time) (s : String) (t : Tree)
      → is_simple k ≡ true
      → text_eq property_datetime k ≡ false
      → text_eq property_sender k ≡ false
      → Common p s t
      → Common p s (L.put_u16 k n t)
  Common-put_u16 k n p s t h d e ((c, found, reads), (b, there, same)) = (
    (c, L.find-put_u16_ne _ k n t h (text_ne _ k d) ∙ found, reads),
    (b, L.find-put_u16_ne _ k n t h (text_ne _ k e) ∙ there, same),
  )

  pub base_json-Common : (p : Time) (s : String) → Common p s (base_json L p s)
  unfolding base_json
  base_json-Common p s =
      let (c, found, reads) = L.find-put_time property_datetime p L.empty refl in
      (
        (
          c,
          L.find-put_ne property_datetime property_sender s _ refl (text_ne _ _ refl) ∙ found,
          reads,
        ),
        Field-put property_sender s _ refl,
      )

  pub required-Field :
      (k v message : String) (t : Tree) → Field k v t → required L k message t ≡ ok v
  unfolding required
  required-Field k v message t (c, found, same) = rw (found, required) (ap ok same)

  pub required_shown-Field :
      (k v message : String) (t : Tree) → Field k v t → required_shown L k message t ≡ ok v
  unfolding required_shown
  required_shown-Field k v message t (c, found, same) = rw (found, required_shown) (ap ok same)

  pub required-missing :
      (k message : String) (t : Tree)
      → L.find k t ≡ none
      → required L k message t ≡ throw (runtime_error message)
  unfolding required
  required-missing k message t h = rw (h, required) refl

  pub get-Field :
      (k v : String) (t : Tree) → is_simple k ≡ true → Field k v t → get_or_throw L k t ≡ ok v
  unfolding get_or_throw
  get-Field k v t h (c, found, same) = rw (L.get-key k t h, get_or_throw) (rw found (ap ok same))

  pub extract_common_params-Common :
      (p : Time) (s : String) (t : Tree)
      → Common p s t
      → extract_common_params L t ≡ ok (L.to_micros p, s)
  unfolding extract_common_params
  extract_common_params-Common p s t ((c, found, reads), sender) =
      rw
        (required_shown-Field property_datetime (L.get_value c) "Could not get datetime property." t
          (c, found, refl))
        (rw (required_shown-Field property_sender s "Could not get sender property." t sender) (
          rw (get-Field property_sender s t refl sender)
            (ap (λ (q : Time). ok (q, s)) (reads L.epoch))))

  to_json-type : (type : String) (sub : Tree) → Field property_type type (to_json L type sub)
  unfolding to_json
  to_json-type type sub =
      let (c, found, same) = L.find-put property_type type L.empty refl in
      (
        c,
        L.find-put_child_ne property_type property_object sub _ refl (text_ne _ _ refl) ∙ found,
        same,
      )

  -- A message is found again under its type.
  pub extract_from-to_json :
      (type : String) (sub : Tree) → extract_from L (to_json L type sub) ≡ some (type, sub)
  unfolding extract_from to_json
  extract_from-to_json type sub =
      let (c, found, same) = to_json-type type sub in
      rw (found, extract_from)
        (rw (L.find-put_child property_object sub (L.put property_type type L.empty) refl)
          (ap (λ (x : String). some (x, sub)) same))

  pub get_type-to_json :
      (type : String) (sub : Tree) → get_or_throw L property_type (to_json L type sub) ≡ ok type
  get_type-to_json type sub = get-Field property_type type _ refl (to_json-type type sub)
