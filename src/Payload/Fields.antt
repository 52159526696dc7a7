-- ===== src/Payload/Fields.antt =====
-- PayloadManager against the list of fields that it stands for
-- (perceptive-layer/mqtt_protobuff/governance_core/src/PayloadManager.cpp).
use governance_iot_platform.Prelude.{
  String, Bool, false, List, [], ◌∷◌, ◌≡◌, refl, sym, ap, subst, ◌∙◌,
}
use Prim.Native.String.{◌++◌ as text_append}
use mathlib.Core.List.{foldl}
use text.Mathlib.TextLemmas.{append_assoc, append-nil}
use governance_iot_platform.Payload.{
  PayloadManager, Field, field_text, clear, add, add_all, build, get_string,
}

-- The fields of an object, with commas between them.
unfoldable pub joined : List Field → String
joined [] = ""
joined (f ∷ []) = field_text f
joined (f ∷ g ∷ fields) = text_append (field_text f) (text_append "," (joined (g ∷ fields)))

-- the object that a list of fields stands for
unfoldable pub object_text : List Field → String
object_text fields = text_append "{" (text_append (joined fields) "}")

-- fields behind earlier ones
abbrev more : List Field → String
more [] = ""
more (f ∷ fields) = text_append "," (text_append (field_text f) (more fields))

joined-more :
    (f : Field) (fields : List Field)
    → joined (f ∷ fields) ≡ text_append (field_text f) (more fields)
unfolding joined
joined-more f [] = sym (append-nil (field_text f))
joined-more f (g ∷ fields) =
    ap (λ t. text_append (field_text f) (text_append "," t)) (joined-more g fields)

abbrev state : String → Bool → PayloadManager
state payload is_first = record { payload = payload; is_first = is_first; is_closed = false }

add-state :
    (s : String) (f : Field)
    → add (state s false) f ≡ state (text_append s (text_append "," (field_text f))) false
unfolding add
add-state s f = ap (λ t. state t false) (append_assoc s "," (field_text f))

add_all-state :
    (s : String) (fields : List Field)
    → add_all (state s false) fields ≡ state (text_append s (more fields)) false
unfolding add_all
add_all-state s [] = ap (λ t. state t false) (sym (append-nil s))
add_all-state s (f ∷ fields) =
    ap (λ p. foldl add p fields) (add-state s f)
    ∙ add_all-state (text_append s (text_append "," (field_text f))) fields
    ∙ ap (λ t. state t false)
        (append_assoc s (text_append "," (field_text f)) (more fields)
          ∙ ap (λ t. text_append s t) (append_assoc "," (field_text f) (more fields)))

add_all-clear :
    (fields : List Field) (first : Field)
    → add_all clear (first ∷ fields) ≡ state (text_append "{" (joined (first ∷ fields))) false
unfolding clear add_all add
add_all-clear fields first =
    add_all-state (text_append "{" (field_text first)) fields
    ∙ ap (λ t. state t false)
        (append_assoc "{" (field_text first) (more fields)
          ∙ ap (λ t. text_append "{" t) (sym (joined-more first fields)))

-- what the object reads before and behind a build
abbrev pub Shows : PayloadManager → String → Type 0
Shows p t =
    (get_string p ≡ t)
    × ((build p).1 ≡ t)
    × (get_string (build p).0 ≡ t)
    × ((build (build p).0).1 ≡ t)

state-Shows : (s : String) (b : Bool) → Shows (state s b) (text_append s "}")
unfolding get_string build
state-Shows s b = (refl, refl, refl, refl)

-- The calls of add on a cleared object implement the list of their fields: getString and build both
-- give the fields between braces with a comma between each two, and a build changes neither what
-- getString gives nor what a further build gives.
pub add_all-Shows : (fields : List Field) → Shows (add_all clear fields) (object_text fields)
unfolding object_text joined add_all clear get_string build
add_all-Shows [] = (refl, refl, refl, refl)
add_all-Shows (first ∷ fields) =
    subst (λ p. Shows p (object_text (first ∷ fields))) (sym (add_all-clear fields first))
      (subst (Shows (state (text_append "{" (joined (first ∷ fields))) false))
        (append_assoc "{" (joined (first ∷ fields)) "}")
        (state-Shows (text_append "{" (joined (first ∷ fields))) false))
