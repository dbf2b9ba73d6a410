-- ===== src/UserData/Names.antt =====
-- The text of a name in the stream: `$name=…$type=…`, or the name alone (srv_common/userAddtionData.cpp).
use apollolib.Base.{
  ℕ, Bool, true, false, Option, none, some, [], ◌∷◌, ◌++◌, ◌≡◌, ◌≢◌, refl, ap, ◌==◌, if◌then◌else◌,
  All, All-append, ◌<◌, arith,
}
use mathlib.Core.Path.{ap₂, ◌∙◌}
use apollolib.Base.Text.{Text}

-- A byte array read as a C string: up to the first NUL.
unfoldable pub c_str : Text → Text
c_str [] = []
c_str (c ∷ s) = if c == 0 then [] else c ∷ c_str s

-- `strchr`: the rest of the text from the first `c` on.
unfoldable pub strchr : ℕ → Text → Option Text
strchr c [] = none
strchr c (x ∷ s) = if x == c then some (x ∷ s) else strchr c s

-- The text before the first `c`, where the code puts a NUL.
unfoldable pub until : ℕ → Text → Text
until c [] = []
until c (x ∷ s) = if x == c then [] else x ∷ until c s

-- The rest of a text after a prefix.
unfoldable pub strip : Text → Text → Option Text
strip [] s = some s
strip (p ∷ ps) [] = none
strip (p ∷ ps) (c ∷ s) = if p == c then strip ps s else none

-- `strstr(s, tag) + strlen(tag)`
unfoldable pub after : Text → Text → Option Text
after tag [] = strip tag []
after tag (c ∷ s) = elim (strip tag (c ∷ s)) [ some rest ↦ some rest | none ↦ after tag s ]

-- `$name=` and `$type=`
abbrev pub name_tag : Text
name_tag = b'$' ∷ b'n' ∷ b'a' ∷ b'm' ∷ b'e' ∷ b'=' ∷ []

abbrev pub type_tag : Text
type_tag = b'$' ∷ b't' ∷ b'y' ∷ b'p' ∷ b'e' ∷ b'=' ∷ []

-- `strchr(pN, '=') + 1`, where `pN` is the first `$` after the name.
unfoldable pub type_at : Option Text → Option Text
unfolding strchr
type_at none = none
type_at (some p) = elim (strchr b'=' p) [ none ↦ none | some [] ↦ none | some (c ∷ t) ↦ some t ]

-- What is read of a name after its tag, if there is one.
unfoldable pub parse_tagged : Text → Option Text → Text × Option Text
unfolding until strchr type_at
parse_tagged name none = (name, none)
parse_tagged name (some p) = (until b'$' p, type_at (strchr b'$' p))

-- The name and the type in the text of a name.
unfoldable pub parse_name : Text → Text × Option Text
unfolding after parse_tagged
parse_name name = parse_tagged name (after name_tag name)

-- Whether `ToStream` writes the type.
unfoldable pub is_typed : Bool → Text → Bool
is_typed false t = false
is_typed true [] = false
is_typed true (c ∷ t) = true

-- The text that `ToStream` writes for a name.
unfoldable pub print_name : Bool → Text → Text → Text
unfolding is_typed
print_name with_type name type_name =
    if is_typed with_type type_name then name_tag ++ (name ++ (type_tag ++ type_name)) else name

abbrev pub IsText : Text → Type 0
IsText = All (λ c. 0 < c)

-- A C string without `$`.
abbrev pub IsPlain : Text → Type 0
IsPlain = All (λ c. (0 < c) × (c ≢ b'$'))

pub c_str_self : (s : Text) → IsText s → c_str s ≡ s
unfolding c_str
c_str_self [] h = refl
c_str_self (c ∷ s) h = ground (arith, c_str_self s h.1)

until_plain : (s r : Text) → IsPlain s → until b'$' (s ++ (b'$' ∷ r)) ≡ s
unfolding until
until_plain [] r h = refl
until_plain (c ∷ s) r h = ground (arith, until_plain s r h.1)

strchr_plain : (s r : Text) → IsPlain s → strchr b'$' (s ++ (b'$' ∷ r)) ≡ some (b'$' ∷ r)
unfolding strchr
strchr_plain [] r h = refl
strchr_plain (c ∷ s) r h = ground (arith, strchr_plain s r h.1)

after_plain : (s : Text) → IsPlain s → after name_tag s ≡ none
unfolding after strip
after_plain [] h = refl
after_plain (c ∷ s) h = ground (arith, after_plain s h.1)

-- The type that a stream keeps.
abbrev pub kept_type : Bool → Text → Option Text
kept_type true [] = none
kept_type true (c ∷ t) = some (c ∷ t)
kept_type false t = none

after_tag : (s : Text) → after name_tag (name_tag ++ s) ≡ some s
unfolding after strip
after_tag s = refl

type_of_name :
    (name t : Text) → IsPlain name → type_at (strchr b'$' (name ++ (type_tag ++ t))) ≡ some t
unfolding type_at
type_of_name name t h = ap type_at (strchr_plain name (b't' ∷ b'y' ∷ b'p' ∷ b'e' ∷ b'=' ∷ t) h)

pub parse_name-print_name :
    (with_type : Bool) (name type_name : Text)
    → IsPlain name
    → parse_name (print_name with_type name type_name) ≡ (name, kept_type with_type type_name)
unfolding parse_name print_name
parse_name-print_name false name t h = ap (parse_tagged name) (after_plain name h)
parse_name-print_name true name [] h = ap (parse_tagged name) (after_plain name h)
parse_name-print_name true name (c ∷ t) h =
    ap (parse_tagged _) (after_tag (name ++ (type_tag ++ (c ∷ t))))
    ∙ ap₂ (λ a b. (a, b)) (until_plain name _ h) (type_of_name name (c ∷ t) h)

IsPlain-IsText : (s : Text) → IsPlain s → IsText s
IsPlain-IsText [] h = tt
IsPlain-IsText (c ∷ s) h = (h.0.0, IsPlain-IsText s h.1)

pub print_name-IsText :
    (t : Bool) (name type_name : Text)
    → IsPlain name
    → IsText type_name
    → IsText (print_name t name type_name)
unfolding print_name
print_name-IsText false name t p q = IsPlain-IsText name p
print_name-IsText true name [] p q = IsPlain-IsText name p
print_name-IsText true name (c ∷ t) p q =
    let tagged = All-append (λ (x : ℕ). 0 < x) name (type_tag ++ (c ∷ t)) (IsPlain-IsText name p) in
    let tag_then : (r : Text) → IsText r → IsText (type_tag ++ r) = λ r h.
      (omega arith, (omega arith, (omega arith, (omega arith, (omega arith, (omega arith, h)))))) in
    let all = tagged (tag_then (c ∷ t) q) in
    (omega arith, (omega arith, (omega arith, (omega arith, (omega arith, (omega arith, all))))))
