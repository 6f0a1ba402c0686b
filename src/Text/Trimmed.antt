-- ===== src/Text/Trimmed.antt =====
-- Texts that `strings.TrimSpace` takes the blanks from, and those in which a comment is found.
use gogame.Common.{ℕ, ◌≡◌, ◌≢◌, refl, true, false, [], ◌∷◌, ◌++◌, arith, ==-refl, ne→==, All}
use mathlib.Core.List.{append-nil}
use gogame.Text.{Text, equals, is_in, trim_left, trim_right, trim, cut_comment, has_prefix}

pub equals_refl : (s : Text) → equals s s ≡ true
unfolding equals
equals_refl [] = refl
equals_refl (b ∷ s) = rw (==-refl b) (equals_refl s)

pub equals→≡ : (s t : Text) → equals s t ≡ true → s ≡ t
unfolding equals
equals→≡ [] [] e = refl
equals→≡ [] (b ∷ t) e = cc
equals→≡ (a ∷ s) [] e = cc
equals→≡ (a ∷ s) (b ∷ t) e = ground (arith, equals→≡ s t)

trim_right_blank :
    (cutset blanks : Text) → All (λ b. is_in b cutset ≡ true) blanks → trim_right cutset blanks ≡ []
unfolding trim_right
trim_right_blank cutset [] h = refl
trim_right_blank cutset (b ∷ s) h = rw (trim_right_blank cutset s h.1, h.0)

-- A text whose last byte stays, followed by bytes of the cutset.
pub trim_right-append :
    (cutset s : Text) (b : ℕ) (blanks : Text)
    → is_in b cutset ≡ false
    → All (λ b. is_in b cutset ≡ true) blanks
    → trim_right cutset (s ++ b ∷ blanks) ≡ s ++ b ∷ []
unfolding trim_right
trim_right-append cutset [] b blanks h all = rw (trim_right_blank cutset blanks all, h)
trim_right-append cutset (a ∷ []) b blanks h all = rw (trim_right-append cutset [] b blanks h all)
trim_right-append cutset (a ∷ c ∷ s) b blanks h all =
    rw (trim_right-append cutset (c ∷ s) b blanks h all)

-- A text without bytes of the cutset, followed by such bytes.
pub trim_right-free :
    (cutset s blanks : Text)
    → All (λ b. is_in b cutset ≡ false) s
    → All (λ b. is_in b cutset ≡ true) blanks
    → trim_right cutset (s ++ blanks) ≡ s
unfolding trim_right
trim_right-free cutset [] blanks h all = trim_right_blank cutset blanks all
trim_right-free cutset (b ∷ []) blanks h all = rw (trim_right_blank cutset blanks all, h.0)
trim_right-free cutset (b ∷ c ∷ s) blanks h all = rw (trim_right-free cutset (c ∷ s) blanks h.1 all)

pub trim_right-free_self :
    (cutset s : Text) → All (λ b. is_in b cutset ≡ false) s → trim_right cutset s ≡ s
trim_right-free_self cutset s h = rw (append-nil s) at (trim_right-free cutset s [] h tt)

-- A text whose first and last byte stay.
pub trim-between :
    (cutset : Text) (a : ℕ) (s : Text) (b : ℕ) (blanks : Text)
    → is_in a cutset ≡ false
    → is_in b cutset ≡ false
    → All (λ b. is_in b cutset ≡ true) blanks
    → trim cutset (a ∷ s ++ b ∷ blanks) ≡ a ∷ s ++ b ∷ []
unfolding trim trim_left
trim-between cutset a s b blanks f h all = rw f (trim_right-append cutset (a ∷ s) b blanks h all)

-- The text before the first comment has no `/`.
pub cut_comment-append :
    (s comment : Text)
    → All (λ b. b ≢ b'/') s
    → cut_comment (s ++ b'/' ∷ b'/' ∷ comment) ≡ (s, b'/' ∷ b'/' ∷ comment)
unfolding cut_comment has_prefix
cut_comment-append [] comment h = refl
cut_comment-append (b ∷ s) comment h = rw (ne→== b b'/' h.0, cut_comment-append s comment h.1)

pub trim-free : (cutset s : Text) → All (λ b. is_in b cutset ≡ false) s → trim cutset s ≡ s
unfolding trim trim_left trim_right
trim-free cutset [] h = refl
trim-free cutset (b ∷ s) h = rw h.0 (trim_right-free_self cutset (b ∷ s) h)
