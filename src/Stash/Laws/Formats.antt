-- ===== src/Stash/Laws/Formats.antt =====
-- A format with its arguments, and the text that it stands for.
use ether_house.Base.{
  ℕ, zero, suc, ◌+◌, ◌^◌, ◌<◌, ◌≡◌, ◌≢◌, ap, ◌∙◌, arith, false, ◌==◌, if◌then◌else◌, ◌⊎◌, List, [],
  ◌∷◌, ◌++◌, All, length, Memory, Holds,
}
use ether_house.Net.Filler.{wtoa}
use ether_house.Stash.Message.{Places, text_length, seg_word, put_word}

-- A character, or a `$` with its kind, the word that is handed over, and the text it stands for.
pub data Piece : Type 0 where
  plain : ℕ → Piece
  placed : ℕ → ℕ → List ℕ → Piece

abbrev pub code : List Piece → List ℕ
code [] = []
code (plain c ∷ rest) = c ∷ code rest
code (placed kind w t ∷ rest) = b'$' ∷ kind ∷ code rest

abbrev pub words : List Piece → List ℕ
words [] = []
words (plain c ∷ rest) = words rest
words (placed kind w t ∷ rest) = w ∷ words rest

abbrev pub meaning : List Piece → List ℕ
meaning [] = []
meaning (plain c ∷ rest) = c ∷ meaning rest
meaning (placed kind w t ∷ rest) = t ++ meaning rest

-- The rounds of extract that the pieces take.
abbrev pub cost : List Piece → ℕ
cost [] = 0
cost (plain c ∷ ps) = 1 + cost ps
cost (placed kind w t ∷ ps) = 2 + length t + cost ps

abbrev pub IsText : ℕ → Type 0
IsText c = c ≢ 0

-- A text stands in a memory, with its end.
abbrev pub Stands : Memory → ℕ → List ℕ → Type 0
Stands m p t = Holds m p (t ++ 0 ∷ [])

-- The kinds of arguments but `$H`: a number, and texts in the three memories.
abbrev pub Means : Places → ℕ → ℕ → List ℕ → Type 0
Means places kind w t =
    ((kind ≡ b'D') × (t ≡ wtoa 5 w))
    ⊎ ((kind ≡ b'S') × Stands places.ram w t)
    ⊎ ((kind ≡ b'F') × Stands places.flash w t)
    ⊎ ((kind ≡ b'E') × Stands places.eeprom w t)

abbrev pub IsPiece : Places → ℕ → Piece → Type 0
IsPiece places rounds (plain c) = (c ≢ 0) × (c ≢ b'$')
IsPiece places rounds (placed kind w t) =
    (w < 2 ^ 16) × All IsText t × (length t < rounds) × Means places kind w t

pub text_length_lem :
    (rounds : ℕ) (m : Memory) (p : ℕ) (t : List ℕ)
    → Stands m p t
    → All IsText t
    → length t < rounds
    → text_length rounds m p ≡ length t
unfolding text_length
text_length_lem zero m p t h a lt = absurd (omega arith)
text_length_lem (suc left) m p [] (e, h) a lt =
    ap (λ b. if b == 0 then 0 else text_length left m (p + 1) + 1) e
text_length_lem (suc left) m p (x ∷ xs) (e, h) (a, a') lt =
    let here : (m p == 0) ≡ false = ground (arith, e, a) in
    ap (λ b. if b then 0 else text_length left m (p + 1) + 1) here
    ∙ ap (λ n. n + 1) (text_length_lem left m (p + 1) xs h a' (omega arith))
    ∙ omega arith

-- Words.
pub seg_word-put_word : (i w : ℕ) (m : Memory) → w < 2 ^ 16 → seg_word (put_word i w m) i ≡ w
seg_word-put_word i w m lt = ground arith

pub seg_word_other : (i j w : ℕ) (m : Memory) → i ≢ j → seg_word (put_word i w m) j ≡ seg_word m j
seg_word_other i j w m h = ground arith

abbrev pub HoldsWords : Memory → ℕ → List ℕ → Type 0
HoldsWords m i [] = Unit
HoldsWords m i (w ∷ rest) = (seg_word m i ≡ w) × HoldsWords m (i + 1) rest

pub HoldsWords-put_word :
    (m : Memory) (i j w : ℕ) (ws : List ℕ)
    → j < i
    → HoldsWords m i ws
    → HoldsWords (put_word j w m) i ws
HoldsWords-put_word m i j w [] lt h = tt
HoldsWords-put_word m i j w (x ∷ xs) lt (e, h) =
    (seg_word_other j i w m (omega arith) ∙ e, HoldsWords-put_word m (i + 1) j w xs (omega arith) h)
