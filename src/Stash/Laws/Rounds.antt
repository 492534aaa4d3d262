-- ===== src/Stash/Laws/Rounds.antt =====
-- Single rounds of extract's loop.
use ether_house.Base.{
  ℕ, zero, suc, ◌+◌, ◌≡◌, ◌≢◌, refl, sym, subst, ap, ◌∙◌, arith, Bool, true, false, ◌==◌, ltb, leb,
  if◌then◌else◌, ◌⊎◌, inl, inr, Option, some, none, List, [], ◌∷◌, length, Memory, write, store,
  write_self, write_ne, Holds-ext, Holds-join, Holds-store,
}
use ether_house.Net.Filler.{wtoa, put_string}
use ether_house.Net.Filler.Laws.{Emits}
use ether_house.Stash.{Scratch}
use ether_house.Stash.Message.{Places, seg_word}
use ether_house.Stash.Extract.{
  Extraction, begin_kind, begin_arg, next_char, take_char, extract_round, extract_loop,
}
use ether_house.Stash.Laws.Formats.{Stands, Means}

pub cons-Emits :
    (m : Memory) (ptr x : ℕ) (xs : List ℕ) (m' : Memory) (end : ℕ)
    → Emits (write m ptr x) (ptr + 1) xs (m', end)
    → Emits m ptr (x ∷ xs) (m', end)
cons-Emits m ptr x xs m' end (e, h, front, behind) = (
  omega (arith, e),
  (front ptr (omega arith) ∙ write_self m ptr x, h),
  λ j lt. front j (omega arith) ∙ write_ne m ptr j x (omega arith),
  λ j lt. behind j lt ∙ write_ne m ptr j x (omega (arith, e)),
)

-- Nothing is left.
pub nothing-Emits : (m : Memory) (ptr : ℕ) (xs : List ℕ) → length xs ≡ 0 → Emits m ptr xs (m, ptr)
nothing-Emits m ptr [] e = (omega arith, tt, λ j lt. refl, λ j lt. refl)
nothing-Emits m ptr (x ∷ xs) e = absurd (omega (arith, e))

put_string-Stands : (t : List ℕ) (m : Memory) → Stands (put_string t 0 m).0 0 t
put_string-Stands t m =
    Holds-join (put_string t 0 m).0 0 t (0 ∷ [])
      (Holds-ext (store m 0 t (length t)) (put_string t 0 m).0 0 t (λ j l g. ground arith)
        (Holds-store m 0 t))
      (ground arith, tt)

abbrev pub IsKind : ℕ → Type 0
IsKind mode = (mode ≡ b'D') ⊎ (mode ≡ b'S') ⊎ (mode ≡ b'F') ⊎ (mode ≡ b'E')

module _ {ℓ} {M : Type ℓ} (scratch : Scratch M) (places : Places) where
  -- Where the characters of an argument are.
  abbrev pub source : ℕ → Memory → Memory
  source mode tmp =
      if mode == b'D'
      then tmp
      else if mode == b'S'
      then places.ram
      else if mode == b'F'
      then places.flash
      else places.eeprom

  next_char_lem :
      (st : Extraction M)
      → IsKind st.mode
      → next_char scratch places st ≡ (source st.mode st.tmp st.ptr, record st { ptr = st.ptr + 1 })
  unfolding next_char
  next_char_lem st k = by_kind st.mode k
    where
      AtMode : ℕ → Type ℓ
      AtMode mode =
          next_char scratch places (record st { mode = mode })
          ≡ (source mode st.tmp st.ptr, record st { mode = mode; ptr = st.ptr + 1 })

      by_kind : (mode : ℕ) → IsKind mode → AtMode mode
      by_kind mode (inl e) = subst AtMode (sym e) refl
      by_kind mode (inr (inl e)) = subst AtMode (sym e) refl
      by_kind mode (inr (inr (inl e))) = subst AtMode (sym e) refl
      by_kind mode (inr (inr (inr e))) = subst AtMode (sym e) refl

  pub take_some :
      (c : ℕ) (st : Extraction M)
      → c ≢ 0
      → take_char scratch places 0 c st
        ≡ record st { buf = write st.buf st.out c; out = st.out + 1; i = st.i + 1 }
  unfolding take_char
  take_some c st z =
      let here : (c == 0) ≡ false = ground (arith, z) in
      let inside : leb 0 st.i ≡ true = ground arith in
      ap
        (λ t.
          if t
          then record st { mode = b'@' }
          else if leb 0 st.i
          then taken
          else record st { i = st.i + 1 })
        here
      ∙ ap (λ t. if t then taken else record st { i = st.i + 1 }) inside
    where
      taken : Extraction M
      taken = record st { buf = write st.buf st.out c; out = st.out + 1; i = st.i + 1 }

  pub take_none : (st : Extraction M) → take_char scratch places 0 0 st ≡ record st { mode = b'@' }
  unfolding take_char
  take_none st = refl

  pub loop_step :
      (left end : ℕ) (st st' : Extraction M)
      → ltb st.i end ≡ true
      → extract_round scratch places 0 st ≡ some st'
      → extract_loop scratch places (suc left) 0 end st ≡ extract_loop scratch places left 0 end st'
  unfolding extract_loop
  loop_step left end st st' e q =
      ap (λ t. if t then by_round (extract_round scratch places 0 st) else st) e ∙ ap by_round q
    where
      by_round : Option (Extraction M) → Extraction M
      by_round r = elim r as (λ _. Extraction M) [
        | some st'' ↦ extract_loop scratch places left 0 end st''
        | none ↦ st
      ]

  pub loop_end :
      (left end : ℕ) (st : Extraction M)
      → ltb st.i end ≡ false
      → extract_loop scratch places left 0 end st ≡ st
  unfolding extract_loop
  loop_end zero end st e = refl
  loop_end (suc left) end st e =
      ap (λ t. if t then by_round (extract_round scratch places 0 st) else st) e
    where
      by_round : Option (Extraction M) → Extraction M
      by_round r = elim r as (λ _. Extraction M) [
        | some st'' ↦ extract_loop scratch places left 0 end st''
        | none ↦ st
      ]

  -- Where the switch leads: the text is where the next rounds read.
  abbrev pub Begins : ℕ → ℕ → List ℕ → Extraction M → Type ℓ
  Begins kind w t st =
      (r : ℕ × Memory) × (begin_kind scratch places kind w st
        ≡ record st { mode = kind; ptr = r.0; tmp = r.1 })
      × Stands (source kind (r.1)) (r.0) t

  pub begin_kind-Begins :
      (kind w : ℕ) (t : List ℕ) (st : Extraction M) → Means places kind w t → Begins kind w t st
  unfolding begin_kind
  begin_kind-Begins kind w t st (inl (k, e)) =
      subst (λ k'. Begins k' w t st) (sym k)
        (
          (0, (put_string (wtoa 5 w) 0 st.tmp).0),
          refl,
          subst (λ t'. Stands (put_string (wtoa 5 w) 0 st.tmp).0 0 t') (sym e)
              (put_string-Stands (wtoa 5 w) st.tmp),
        )
  begin_kind-Begins kind w t st (inr (inl (k, h))) =
      subst (λ k'. Begins k' w t st) (sym k) ((w, st.tmp), refl, h)
  begin_kind-Begins kind w t st (inr (inr (inl (k, h)))) =
      subst (λ k'. Begins k' w t st) (sym k) ((w, st.tmp), refl, h)
  begin_kind-Begins kind w t st (inr (inr (inr (k, h)))) =
      subst (λ k'. Begins k' w t st) (sym k) ((w, st.tmp), refl, h)

  pub Means-IsKind : (kind w : ℕ) (t : List ℕ) → Means places kind w t → IsKind kind
  Means-IsKind kind w t (inl (k, e)) = inl k
  Means-IsKind kind w t (inr (inl (k, h))) = inr (inl k)
  Means-IsKind kind w t (inr (inr (inl (k, h)))) = inr (inr (inl k))
  Means-IsKind kind w t (inr (inr (inr (k, h)))) = inr (inr (inr k))

  -- A round, by its tests.
  abbrev round_of : Bool → Bool → Bool → Extraction M → Option (Extraction M)
  round_of outside at_end is_arg st =
      if outside
      then (if at_end
          then none
          else if is_arg
          then some (begin_arg scratch places st)
          else some
              (take_char scratch places 0 (places.flash st.fmt) (record st { fmt = st.fmt + 1 })))
      else some (
          take_char scratch places 0 ((next_char scratch places st).0)
            ((next_char scratch places st).1))

  one_round :
      (outside at_end is_arg : Bool) (st : Extraction M)
      → (st.mode == b'@') ≡ outside
      → (places.flash st.fmt == 0) ≡ at_end
      → (places.flash st.fmt == b'$') ≡ is_arg
      → extract_round scratch places 0 st ≡ round_of outside at_end is_arg st
  unfolding extract_round
  one_round outside at_end is_arg st e e' e'' =
      ap (λ t. round_of t (places.flash st.fmt == 0) (places.flash st.fmt == b'$') st) e
      ∙ ap (λ t. round_of outside t (places.flash st.fmt == b'$') st) e'
      ∙ ap (λ t. round_of outside at_end t st) e''

  -- A character of the format is written.
  pub plain_round :
      (c : ℕ) (st : Extraction M)
      → st.mode ≡ b'@'
      → places.flash st.fmt ≡ c
      → c ≢ 0
      → c ≢ b'$'
      → extract_round scratch places 0 st
        ≡ some (record st {
          fmt = st.fmt + 1;
          buf = write st.buf st.out c;
          out = st.out + 1;
          i = st.i + 1;
        })
  plain_round c st m e z d =
      one_round true false false st (ground (arith, m)) (ground (arith, e, z))
        (ground (arith, e, d))
      ∙ ap (λ c'. some (take_char scratch places 0 c' (record st { fmt = st.fmt + 1 }))) e
      ∙ ap some (take_some c (record st { fmt = st.fmt + 1 }) z)

  pub begin_round :
      (kind w : ℕ) (st : Extraction M)
      → st.mode ≡ b'@'
      → places.flash st.fmt ≡ b'$'
      → places.flash (st.fmt + 1) ≡ kind
      → seg_word st.pages.buf0.bytes (st.seg + 1) ≡ w
      → extract_round scratch places 0 st
        ≡ some (begin_kind scratch places kind w (record st { fmt = st.fmt + 2; seg = st.seg + 1 }))
  unfolding begin_arg
  begin_round kind w st m e k h =
      one_round true false true st (ground (arith, m)) (ground (arith, e)) (ground (arith, e))
      ∙ ap
          (λ k'. some (
            begin_kind scratch places k' (seg_word st.pages.buf0.bytes (st.seg + 1))
              (record st { fmt = st.fmt + 2; seg = st.seg + 1 })))
          k
      ∙ ap
          (λ w'.
            some (
              begin_kind scratch places kind w' (record st { fmt = st.fmt + 2; seg = st.seg + 1 })))
          h

  IsKind-inside : (mode : ℕ) → IsKind mode → (mode == b'@') ≡ false
  IsKind-inside mode k = ground (arith, k)

  pub text_round :
      (c : ℕ) (st : Extraction M)
      → IsKind st.mode
      → source st.mode st.tmp st.ptr ≡ c
      → extract_round scratch places 0 st
        ≡ some (take_char scratch places 0 c (record st { ptr = st.ptr + 1 }))
  text_round c st k e =
      one_round false (places.flash st.fmt == 0) (places.flash st.fmt == b'$') st
        (IsKind-inside st.mode k) refl refl
      ∙ ap (λ (r : ℕ × Extraction M). some (take_char scratch places 0 (r.0) (r.1)))
          (next_char_lem st k)
      ∙ ap (λ c'. some (take_char scratch places 0 c' (record st { ptr = st.ptr + 1 }))) e
