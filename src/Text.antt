-- ===== src/Text.antt =====
-- What the program uses of Go's `strings` package, over the code points of a text.
pub mod Decimal
pub mod Numbering
use Prim.Native.Char.{Char, code}
use text.Mathlib.TextEquality.{Char-path}
use text.Mathlib.TextLemmas.{nil-append, cons-append}
use job_scheduler_tooling.Prelude.{
  ℕ, ◌+◌, ◌≡◌, refl, ap, String, Bool, true, false, ◌&&◌, ◌||◌, List, [], ◌∷◌, ◌++◌, map, arith,
  Option, none, some, ◌+++◌, leb, ltb, ◌==◌, if◌then◌else◌, Bool-cases, ◌⊎◌, inl, inr, ◌↔◌, sym,
  ◌∙◌, ==_iff,
}

abbrev pub codes : String → List ℕ
codes String.[] = []
codes (String.◌∷◌ letter rest) = code letter ∷ codes rest

-- unicode.ToLower on ASCII, and on the two other letters whose lower case is ASCII (the Kelvin
-- sign and the dotted capital I). The texts searched for are ASCII, so no other letter matters.
unfoldable pub to_lower_code : ℕ → ℕ
to_lower_code c =
    if leb b'A' c && leb c b'Z'
    then c + 32
    else if c == 0x212a
    then b'k'
    else if c == 0x130
    then b'i'
    else c

unfoldable pub to_lower : List ℕ → List ℕ
unfolding to_lower_code
to_lower s = map to_lower_code s

-- strings.HasPrefix, the text first.
unfoldable pub has_prefix : List ℕ → List ℕ → Bool
has_prefix s [] = true
has_prefix [] (d ∷ t) = false
has_prefix (c ∷ s) (d ∷ t) = c == d && has_prefix s t

-- strings.Contains, the text first.
unfoldable pub contains : List ℕ → List ℕ → Bool
unfolding has_prefix
contains [] t = has_prefix [] t
contains (c ∷ s) t = has_prefix (c ∷ s) t || contains s t

-- `t` stands in `s` as one piece.
abbrev pub OccursIn : List ℕ → List ℕ → Type 0
OccursIn t s = (before : List ℕ) × (after : List ℕ) × (s ≡ before ++ (t ++ after))

has_prefix_sound : (s t : List ℕ) → has_prefix s t ≡ true → (after : List ℕ) × (s ≡ t ++ after)
unfolding has_prefix
has_prefix_sound s [] h = (s, refl)
has_prefix_sound [] (d ∷ t) h = cc
has_prefix_sound (c ∷ s) (d ∷ t) h =
    let (after, e) = has_prefix_sound s t (ground arith) in (after, ground arith)

has_prefix-append : (t after : List ℕ) → has_prefix (t ++ after) t ≡ true
unfolding has_prefix
has_prefix-append [] after = refl
has_prefix-append (d ∷ t) after = ground (arith, has_prefix-append t after)

contains_of_prefix : (s t : List ℕ) → has_prefix s t ≡ true → contains s t ≡ true
unfolding contains
contains_of_prefix [] t h = h
contains_of_prefix (c ∷ s) t h = ground arith

contains-append : (before t after : List ℕ) → contains (before ++ (t ++ after)) t ≡ true
unfolding contains
contains-append [] t after = contains_of_prefix (t ++ after) t (has_prefix-append t after)
contains-append (c ∷ before) t after = ground (arith, contains-append before t after)

contains_sound : (s t : List ℕ) → contains s t ≡ true → OccursIn t s
unfolding contains
contains_sound [] t h = let (after, e) = has_prefix_sound [] t h in ([], after, e)
contains_sound (c ∷ s) t h = elim (Bool-cases (has_prefix (c ∷ s) t)) [
  | inl here ↦ let (after, e) = has_prefix_sound (c ∷ s) t here in ([], after, e)
  | inr not_here ↦
      let (before, after, e) = contains_sound s t (ground arith) in
      (c ∷ before, after, ap (◌∷◌ c) e)
]

-- The search finds a text exactly when it occurs.
pub contains_iff : (s t : List ℕ) → (contains s t ≡ true) ↔ OccursIn t s
contains_iff s t = (contains_sound s t, λ (before, after, e). rw e (contains-append before t after))

-- strings.HasPrefix and strings.TrimPrefix in one: what follows the prefix, if it is there.
unfoldable pub after_prefix : String → String → Option String
after_prefix String.[] s = some s
after_prefix (String.◌∷◌ c p) String.[] = none
after_prefix (String.◌∷◌ c p) (String.◌∷◌ d s) = if code c == code d then after_prefix p s else none

pub after_prefix-append : (p s : String) → after_prefix p (p +++ s) ≡ some s
unfolding after_prefix
after_prefix-append String.[] s = ap some (nil-append s)
after_prefix-append (String.◌∷◌ c p) s =
    rw (cons-append c p s) (ground (arith, after_prefix-append p s))

-- What follows a prefix, put after it, is the text.
pub after_prefix_sound : (p s r : String) → after_prefix p s ≡ some r → s ≡ p +++ r
unfolding after_prefix
after_prefix_sound String.[] s r h = let same : s ≡ r = cc in same ∙ sym (nil-append r)
after_prefix_sound (String.◌∷◌ c p) String.[] r h = cc
after_prefix_sound (String.◌∷◌ c p) (String.◌∷◌ d s) r h = elim (Bool-cases (code c == code d)) [
  | inl e ↦
      let same : d ≡ c = Char-path d c (sym ((==_iff _ _).0 e)) in
      let rest : s ≡ p +++ r = after_prefix_sound p s r (rw e at h) in
      rw (cons-append c p r) (λ i. String.◌∷◌ (same i) (rest i))
  | inr e ↦ absurd (cc (rw e at h))
]

-- `a < b` on texts. The order of UTF-8 bytes is that of code points.
unfoldable pub less_text : String → String → Bool
less_text s String.[] = false
less_text String.[] (String.◌∷◌ d t) = true
less_text (String.◌∷◌ c s) (String.◌∷◌ d t) =
    if code c == code d then less_text s t else ltb (code c) (code d)

-- strings.Cut at a separator of one ASCII character: what stands before and after the first.
unfoldable pub cut : ℕ → String → String × String
cut sep String.[] = ("", "")
cut sep (String.◌∷◌ c s) =
    let (before, after) = cut sep s in
    if code c == sep then ("", s) else (String.◌∷◌ c before, after)

abbrev slash : Char
slash = "/"

slash-append : (s : String) → "/" +++ s ≡ String.◌∷◌ slash s
slash-append s = cons-append slash "" s ∙ ap (String.◌∷◌ slash) (nil-append s)

is_slash : (c : Char) → (code c == b'/') ≡ true → c ≡ slash
is_slash c h = Char-path c slash ((==_iff _ _).0 h)

-- A text is what stands before the first slash, the slash and what stands after it, unless nothing
-- stands after.
pub cut_slash :
    (s : String) → ((cut b'/' s).1 ≡ "") ⊎ (s ≡ (cut b'/' s).0 +++ ("/" +++ (cut b'/' s).1))
unfolding cut
cut_slash String.[] = inl refl
cut_slash (String.◌∷◌ c s) = elim (Bool-cases (code c == b'/')) [
  | inl e ↦ inr (
      rw e (
        sym (
          nil-append ("/" +++ s) ∙ slash-append s ∙ ap (λ d. String.◌∷◌ d s) (sym (is_slash c e)))))
  | inr e ↦ rw e (elim (cut_slash s) [
    | inl none_after ↦ inl none_after
    | inr split ↦ inr (ap (String.◌∷◌ c) split ∙ sym (cons-append c _ _))
  ])
]

-- A text without a slash, before one.
pub cut-append :
    (id sub : String) → (cut b'/' id).0 ≡ id → cut b'/' (id +++ ("/" +++ sub)) ≡ (id, sub)
unfolding cut
cut-append String.[] sub h = rw (nil-append ("/" +++ sub), slash-append sub) refl
cut-append (String.◌∷◌ c id) sub h = elim (Bool-cases (code c == b'/')) [
  | inl e ↦ absurd (cc (rw e at h))
  | inr e ↦
      let rest : (cut b'/' id).0 ≡ id = cc (rw e at h) in
      rw (cons-append c id ("/" +++ sub), e, cut-append id sub rest) refl
]
