-- ===== src/Sampler/Leaf.antt =====
-- src/sampler.rs, `leaf_is_any`: whether a sample's innermost frame is one that is to be dropped.
use php_fast_profile.Base.{
  ℕ, List, [], ◌∷◌, ◌++◌, Option, none, some, Bool, false, ◌&&◌, any, All, ◌≡◌, refl, ◌≢◌, arith,
  eqb, list_beq_iff, list_eq, nat_eq,
}
use php_fast_profile.Base.Text.{Text, codes, split_once, strip_prefix, or_later, cons_front}
use php_fast_profile.Zend.Frame.{Frame, qualified_name}

-- The match of one name, on the frame's class and on the name split at its first `::`.
unfoldable pub names_leaf : Frame → Text → Option Text → Option (Text × Text) → Bool
names_leaf leaf name (some class) (some (c, f)) = eqb class c && eqb leaf.function f
names_leaf leaf name none none = eqb leaf.function name
names_leaf leaf name _ _ = false

unfoldable pub leaf_is_any : List Frame → List Text → Bool
unfolding names_leaf
leaf_is_any [] names = false
leaf_is_any (leaf ∷ frames) names =
    any (λ name. names_leaf leaf name leaf.class (split_once name (codes "::"))) names

-- A text with no colon, as the name of a class is.
abbrev pub HasNoColon : Text → Type 0
HasNoColon s = All (λ c. c ≢ b':') s

-- The first `::` behind such a text is the one that follows it.
split_once-colons :
    (c f : Text) → HasNoColon c → split_once (c ++ (codes "::" ++ f)) (codes "::") ≡ some (c, f)
unfolding split_once
split_once-colons [] f h = refl
split_once-colons (x ∷ c) f (hx, hc) = ground (arith, split_once-colons c f hc)

strip_prefix-colons : (s r : Text) → strip_prefix s (codes "::") ≡ some r → s ≡ codes "::" ++ r
strip_prefix-colons [] r e = cc
strip_prefix-colons (a ∷ []) r e = ground arith
strip_prefix-colons (a ∷ b ∷ s) r e = ground arith

parts_step :
    (x : ℕ) (s c f : Text) (o : Option Text) (later : Option (Text × Text))
    → ((r : Text) → o ≡ some r → x ∷ s ≡ codes "::" ++ r)
    → ((a b : Text) → later ≡ some (a, b) → s ≡ a ++ (codes "::" ++ b))
    → or_later o (cons_front x later) ≡ some (c, f)
    → x ∷ s ≡ c ++ (codes "::" ++ f)
parts_step x s c f (some r) later now ih e = ground (arith, now r refl)
parts_step x s c f none none now ih e = cc
parts_step x s c f none (some (a, b)) now ih e = cc (ih a b refl)

-- A text is its two parts with the separator between them.
split_once_parts :
    (s c f : Text) → split_once s (codes "::") ≡ some (c, f) → s ≡ c ++ (codes "::" ++ f)
unfolding split_once
split_once_parts [] c f e = cc
split_once_parts (x ∷ s) c f e =
    parts_step x s c f (strip_prefix (x ∷ s) (codes "::")) (split_once s (codes "::"))
      (λ r p. strip_prefix-colons (x ∷ s) r p) (λ a b p. split_once_parts s a b p) e

-- A frame whose class has no colon, and whose function, if it has no class, has no `::`.
abbrev pub HasPlainNames : Frame → Type 0
HasPlainNames leaf = elim leaf.class [
  | none ↦ split_once leaf.function (codes "::") ≡ none
  | some c ↦ HasNoColon c
]

module _ (name function : Text) (file : Option Text) (line : ℕ) where
  abbrev leaf_of : Option Text → Frame
  leaf_of class = record { function = function; class = class; file = file; line = line }

  names_leaf_class :
      (class : Option Text) (parts : Option (Text × Text))
      → split_once name (codes "::") ≡ parts
      → HasPlainNames (leaf_of class)
      → names_leaf (leaf_of class) name class parts ≡ eqb (qualified_name (leaf_of class)) name
  unfolding names_leaf qualified_name
  names_leaf_class none none e h = refl
  names_leaf_class none (some (c, f)) e h = ground (arith, e, h, list_beq_iff function name)
  names_leaf_class (some k) none e h =
      ground (
        arith,
        e,
        split_once-colons k function h,
        list_beq_iff (k ++ (codes "::" ++ function)) name,
      )
  names_leaf_class (some k) (some (c, f)) e h = ground (
    arith,
    e,
    split_once-colons k function h,
    split_once_parts name c f e,
    list_beq_iff (k ++ (codes "::" ++ function)) name,
    list_beq_iff k c,
    list_beq_iff function f,
  )

-- If the innermost frame has a class without a colon, or no class and a function without `::`, a
-- sample is dropped exactly when the name under which the outputs show that frame is listed; an
-- empty sample is not.
pub leaf_is_any_lem :
    (leaf : Frame) (frames : List Frame) (names : List Text)
    → HasPlainNames leaf
    → (leaf_is_any [] names ≡ false)
      × (leaf_is_any (leaf ∷ frames) names ≡ any (λ name. eqb (qualified_name leaf) name) names)
unfolding leaf_is_any
leaf_is_any_lem leaf frames [] h = (refl, refl)
leaf_is_any_lem leaf frames (name ∷ names) h = (
  refl,
  cc (
    names_leaf_class name leaf.function leaf.file leaf.line leaf.class _ refl h,
    (leaf_is_any_lem leaf frames names h).1,
  ),
)
