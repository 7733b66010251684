-- ===== src/Prelude/Texts.antt =====
-- Go strings and byte slices as lists of bytes, with `==` and `strings.HasPrefix`.
use Prim.Native.Char.{code}
use Prim.Native.Nat.{ℕ}
use Prim.Native.String.{String}
use mathlib.Core.Path.{◌≡◌, refl}
use mathlib.Core.Logic.{◌≢◌, ◌↔◌}
use mathlib.Core.Bool.{Bool, true, false, ◌&&◌}
use mathlib.Core.List.{List, [], ◌∷◌, ◌++◌}
use native.Mathlib.Omega.{arith}
use policy_server.Prelude.Tests.{◌==◌, if◌then◌else◌}

abbrev pub Text : Type 0
Text = List ℕ

-- The bytes of an ASCII literal.
abbrev pub codes : String → Text
codes String.[] = []
codes (String.◌∷◌ c s) = code c ∷ codes s

unfoldable pub text_eq : Text → Text → Bool
text_eq [] [] = true
text_eq [] (b ∷ t) = false
text_eq (a ∷ s) [] = false
text_eq (a ∷ s) (b ∷ t) = a == b && text_eq s t

pub text_eq_iff : (s t : Text) → (text_eq s t ≡ true) ↔ (s ≡ t)
unfolding text_eq
text_eq_iff [] [] = (λ _. refl, λ _. refl)
text_eq_iff [] (b ∷ t) = (λ h. cc, λ h. cc)
text_eq_iff (a ∷ s) [] = (λ h. cc, λ h. cc)
text_eq_iff (a ∷ s) (b ∷ t) = ground (arith, text_eq_iff s t)

pub text_eq_sym : (s t : Text) → text_eq s t ≡ text_eq t s
unfolding text_eq
text_eq_sym [] [] = refl
text_eq_sym [] (b ∷ t) = refl
text_eq_sym (a ∷ s) [] = refl
text_eq_sym (a ∷ s) (b ∷ t) = ground (arith, text_eq_sym s t)

pub text_eq_refl : (s : Text) → text_eq s s ≡ true
text_eq_refl s = (text_eq_iff s s).1 refl

pub text_eq_ne : (s t : Text) → s ≢ t → text_eq s t ≡ false
text_eq_ne s t h = ground (arith, text_eq_iff s t)

-- `strings.HasPrefix(s, prefix)`.
unfoldable pub has_prefix : Text → Text → Bool
has_prefix s [] = true
has_prefix [] (b ∷ p) = false
has_prefix (a ∷ s) (b ∷ p) = a == b && has_prefix s p

pub has_prefix-append : (p s : Text) → has_prefix (p ++ s) p ≡ true
unfolding has_prefix
has_prefix-append [] s = refl
has_prefix-append (b ∷ p) s = ground (arith, has_prefix-append p s)

-- A text with a prefix is that prefix and a rest.
pub has_prefix_split : (s p : Text) → has_prefix s p ≡ true → (r : Text) × (s ≡ p ++ r)
unfolding has_prefix
has_prefix_split s [] h = (s, refl)
has_prefix_split [] (b ∷ p) h = elim (absurd {A = ⊥} (cc)) [ ]
has_prefix_split (a ∷ s) (b ∷ p) h =
    let k : has_prefix s p ≡ true = ground arith in
    let e : a ≡ b = ground arith in let (r, q) = has_prefix_split s p k in (r, cc)

pub append_cancel : (p s t : Text) → p ++ s ≡ p ++ t → s ≡ t
append_cancel [] s t h = h
append_cancel (b ∷ p) s t h = append_cancel p s t (cc)

-- `slices.Contains`.
unfoldable pub contains : List Text → Text → Bool
contains [] a = false
contains (x ∷ xs) a = let rest = contains xs a in if text_eq x a then true else rest

-- No byte of the text is a slash.
abbrev pub NoSlash : Text → Type 0
NoSlash [] = Unit
NoSlash (b ∷ s) = (b ≢ b'/') × NoSlash s

-- Two slash-free segments before a slash are told apart by the whole texts.
pub segment_injective :
    (a b s t : Text) → NoSlash a → NoSlash b → a ++ (b'/' ∷ s) ≡ b ++ (b'/' ∷ t) → (a ≡ b) × (s ≡ t)
segment_injective [] [] s t _ _ h = (refl, cc)
segment_injective [] (b ∷ bs) s t _ (nb, _) h = absurd (nb (cc))
segment_injective (a ∷ as') [] s t (na, _) _ h = absurd (na (cc))
segment_injective (a ∷ as') (b ∷ bs) s t (_, na) (_, nb) h =
    let (p, q) = segment_injective as' bs s t na nb (cc) in (cc, q)
