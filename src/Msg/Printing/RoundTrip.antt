-- ===== src/Msg/Printing/RoundTrip.antt =====
-- A message and its text.
use Prim.Native.String.{◌++◌}
use text.Mathlib.TextLemmas.{nil-append}
use mathlib.Core.Option as O
use se3313a_lab.Base.{false, true, String, ◌≡◌, refl, ap, ◌∙◌, Option, some, Except, ok, ◌>>=◌}
use se3313a_lab.Boost.{Library, is_simple}
use se3313a_lab.Msg.Json.{from, to}
use se3313a_lab.Msg.Json.Clean.{from-to}
use se3313a_lab.Msg.Instance
use se3313a_lab.Msg.Instance.{
  get_or_throw, extract_from, property_object, property_sender, property_type,
}
use se3313a_lab.Msg.Instance.Fields.{
  extract_from-to_json, Common, Common-put, Common-put_u16, base_json-Common,
}
use se3313a_lab.Msg.LoginRequest
use se3313a_lab.Msg.LoginRequest.{from_json-login_request}
use se3313a_lab.Msg.MessageRequest
use se3313a_lab.Msg.MessageRequest.{from_json-message_request}
use se3313a_lab.Msg.LoginResponse
use se3313a_lab.Msg.LoginResponse.{from_json-login_response}
use se3313a_lab.Msg.MessageResponse
use se3313a_lab.Msg.MessageResponse.{from_json-message_response}
use se3313a_lab.Msg.ErrorResponse
use se3313a_lab.Msg.ErrorResponse.{from_json-error_response}
use se3313a_lab.Msg.AnyInstance.{
  AnyInstance, login_request, message_request, login_response, message_response, error_response,
  to_json, type_of, get_type-of,
}
use se3313a_lab.Msg.Printing.{
  sender, date_time, class_of, as_instance, from_json, print, printed, HasCode,
}

module _ (L : Library) where
  open L use {Tree, Time}

  -- The object of a message goes to the parser of its class.
  from_object :
      {T : Type 0} (parse : Tree → Except (Option T)) (type : String) (sub : Tree)
      → Instance.from_json L parse (Instance.to_json L type sub) ≡ parse sub
  unfolding Instance.from_json
  from_object parse type sub = rw (extract_from-to_json L type sub, Instance.from_json) refl

  from_json-to_json :
      (m : AnyInstance Time)
      → HasCode m
      → from_json L (class_of m) (to_json L m) ≡ ok (some (printed L m))
  unfolding from_json to_json LoginRequest.to_json MessageRequest.to_json LoginResponse.to_json
      MessageResponse.to_json ErrorResponse.to_json
  from_json-to_json (login_request m) h =
      ap (as_instance login_request) (from_object _ _ _ ∙ from_json-login_request L m)
  from_json-to_json (message_request m) h =
      ap (as_instance message_request) (from_object _ _ _ ∙ from_json-message_request L m)
  from_json-to_json (login_response m) h =
      ap (as_instance login_response) (from_object _ _ _ ∙ from_json-login_response L m)
  from_json-to_json (message_response m) h =
      ap (as_instance message_response) (from_object _ _ _ ∙ from_json-message_response L m)
  from_json-to_json (error_response m) (small, canonical) =
      ap (as_instance error_response)
        (from_object _ _ _ ∙ from_json-error_response L m small canonical)

  -- A message of any class that is printed to an empty stream comes back from that text by
  -- `json::from` and `instance::fromJson` of its class, as it was but for its time, which is as
  -- printed, and for a login response its sender, which is the server. It is given that an error's
  -- code fits 16 bits and is an enumerator or no enumerator's number, that the written text of its
  -- tree ends with a brace and a newline, and that the reader reads that text without the newline
  -- as the tree.
  pub from_json-print :
      (m : AnyInstance Time) (body : String)
      → HasCode m
      → L.write_json false (to_json L m) ≡ body ++ ("}" ++ "\n")
      → L.read_json (body ++ "}") ≡ some (to_json L m)
      → (from L (print L "" m) >>= from_json L (class_of m)) ≡ ok (some (printed L m))
  unfolding print to
  from_json-print m body h w r =
      ap (λ x. from L x >>= from_json L (class_of m)) (nil-append _)
      ∙ ap (λ t. t >>= from_json L (class_of m)) (from-to L (to_json L m) body w r)
      ∙ from_json-to_json m h

  object-Common :
      (m : AnyInstance Time)
      → (sub : Tree) × (L.find property_object (to_json L m) ≡ some sub)
        × Common L (date_time m) (sender m) sub
  unfolding to_json LoginRequest.to_json MessageRequest.to_json LoginResponse.to_json
      MessageResponse.to_json ErrorResponse.to_json LoginRequest.sub_to_json
      MessageRequest.sub_to_json LoginResponse.sub_to_json MessageResponse.sub_to_json
      ErrorResponse.sub_to_json Instance.to_json
  object-Common (login_request m) =
      (_, L.find-put_child property_object _ _ refl, base_json-Common L m.date_time m.sender)
  object-Common (message_request m) = (
    _,
    L.find-put_child property_object _ _ refl,
    Common-put L _ _ _ _ _ refl refl refl (base_json-Common L m.date_time m.sender),
  )
  object-Common (login_response m) = (
    _,
    L.find-put_child property_object _ _ refl,
    Common-put L _ _ _ _ _ refl refl refl (base_json-Common L m.date_time (LoginResponse.sender m)),
  )
  object-Common (message_response m) = (
    _,
    L.find-put_child property_object _ _ refl,
    Common-put L _ _ _ _ _ refl refl refl
        (Common-put L _ _ _ _ _ refl refl refl (base_json-Common L m.date_time m.sender)),
  )
  object-Common (error_response m) = (
    _,
    L.find-put_child property_object _ _ refl,
    Common-put L _ _ _ _ _ refl refl refl (
        Common-put L _ _ _ _ _ refl refl refl
          (Common-put_u16 L _ _ _ _ _ refl refl refl (base_json-Common L m.date_time m.sender))),
  )

  -- A text of the object is found at its path.
  get-object :
      (key : String) (t sub c : Tree)
      → is_simple key ≡ true
      → L.find property_object t ≡ some sub
      → L.find key sub ≡ some c
      → get_or_throw L (property_object ++ ("." ++ key)) t ≡ ok (L.get_value c)
  unfolding get_or_throw O.bind
  get-object key t sub c simple p q =
      let got : L.get (property_object ++ ("." ++ key)) t ≡ some (L.get_value c) =
        L.get-dot property_object key t refl simple
        ∙ ap (λ o. O.map L.get_value (O.bind o (L.find key))) p
        ∙ ap (O.map L.get_value) q in
      rw (got, get_or_throw) refl

  -- The tree of a message of any class holds, at the paths "type", "object.sender" and
  -- "object.datetime", the type of its class, what its method `sender` returns, and a text that
  -- reads as its time, as printed.
  pub to_json-fields :
      (m : AnyInstance Time)
      → (get_or_throw L "type" (to_json L m) ≡ ok (type_of m))
        × (get_or_throw L "object.sender" (to_json L m) ≡ ok (sender m))
        × ((text : String) × (get_or_throw L "object.datetime" (to_json L m) ≡ ok text)
            × ((before : Time) → L.read_time text before ≡ L.to_micros (date_time m)))
  to_json-fields m =
      let (sub, p, ((c, found, reads), (b, there, same))) = object-Common m in
      (
        get_type-of L m,
        get-object "sender" (to_json L m) sub b refl p there ∙ ap ok same,
        (L.get_value c, get-object "datetime" (to_json L m) sub c refl p found, reads),
      )
