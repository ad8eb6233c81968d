-- ===== src/Rtl/Bitmap/Counting.antt =====
-- The loop of CountBits: the word at which it stops.
use exectos.Base.{
  ℕ, zero, suc, ◌+◌, ◌*◌, ◌/◌, ◌%◌, ◌^◌, ◌≤◌, ◌<◌, ◌≡◌, refl, sym, ap, ◌∙◌, arith, ltb, ◌==◌,
  if◌then◌else◌, Bool, Bool-cases, inl, inr,
}
use exectos.Word.{bit}
use exectos.Word.Bits.{bit-lt, bit-zero}
use exectos.Word.Masks.{bit-complement}
use exectos.Rtl.Bitmap.{Words, others, count_loop}
use exectos.Rtl.Bitmap.Words.{digit}

pub digit-lt : (ws : Words) (b : ℕ) → digit ws b < 2
unfolding digit
digit-lt ws b = bit-lt (ws (b / 64)) (b % 64)

-- The bit that is asked for.
abbrev pub wanted : Bool → ℕ
wanted set = if set then 1 else 0

abbrev pub IsWords : Words → Type 0
IsWords ws = (i : ℕ) → ws i < 2 ^ 64

module _ (ws : Words) (fit : IsWords ws) (set : Bool) where
  others-lt : (i : ℕ) → others set (ws i) < 2 ^ 64
  others-lt i = ground (arith, fit i)

  pub bit-others :
      (w i : ℕ) → i < 64 → bit (others set (ws w)) i ≡ (if bit (ws w) i == wanted set then 0 else 1)
  bit-others w i h = ground (arith, bit-complement 64 (ws w) i (fit w) h, bit-lt (ws w) i)

  -- 1 where the bit at place `b` is another one, with `value` for the word `word`.
  unfoldable pub other : ℕ → ℕ → ℕ → ℕ
  other word value b = bit (if b / 64 == word then value else others set (ws (b / 64))) (b % 64)

  other-here :
      (word value r i : ℕ) → r ≡ word → i < 64 → bit value i ≡ other word value (r * 64 + i)
  unfolding other
  other-here word value r i e h =
      ground (arith, ap (bit value) (let d : i ≡ (r * 64 + i) % 64 = omega arith in d))

  other-none : (word value b : ℕ) → value ≡ 0 → b / 64 ≡ word → other word value b ≡ 0
  unfolding other
  other-none word value b e h = ground (arith, ap (λ t. bit t (b % 64)) e, bit-zero (b % 64))

  other-next :
      (word value b : ℕ)
      → suc word * 64 ≤ b
      → other word value b ≡ other (suc word) (others set (ws (suc word))) b
  unfolding other
  other-next word value b h =
      ground (arith, λ (e : b / 64 ≡ suc word). ap (λ t. bit (others set (ws t)) (b % 64)) e)

  -- Where the loop stops.
  pub record Stop (word value more r s : ℕ) : Type 0 where
    pub least : word ≤ r
    pub most : r ≤ word + more
    pub none_left :
        s ≡ 0 → (b : ℕ) → word * 64 ≤ b → b < (word + more + 1) * 64 → other word value b ≡ 0
    pub before : (b : ℕ) → word * 64 ≤ b → b < r * 64 → other word value b ≡ 0
    pub here : (i : ℕ) → i < 64 → bit s i ≡ other word value (r * 64 + i)
    pub small : s < 2 ^ 64

  pub count_loop-Stop :
      (more word value : ℕ)
      → value < 2 ^ 64
      → Stop word value more
          (count_loop ws set word value more).0
          (count_loop ws set word value more).1
  unfolding count_loop
  count_loop-Stop zero word value h = record {
    least = omega arith;
    most = omega arith;
    none_left = λ e b low high. other-none word value b e (omega arith);
    before = λ b low high. absurd (omega arith);
    here = λ i lt. other-here word value word i refl lt;
    small = h;
  }
  count_loop-Stop (suc more) word value h = elim (Bool-cases (value == 0)) [
    | inr some ↦ rw some (record {
      least = omega arith;
      most = omega arith;
      none_left = λ e. absurd (ground arith);
      before = λ b low high. absurd (omega arith);
      here = λ i lt. other-here word value word i refl lt;
      small = h;
    })
    | inl none ↦
        let rest =
          count_loop-Stop more (suc word) (others set (ws (suc word))) (others-lt (suc word)) in
        rw none (record {
          least = omega (arith, rest.least);
          most = omega (arith, rest.most);
          none_left = λ e b low high. elim (Bool-cases (ltb b (suc word * 64))) [
            | inl this ↦ other-none word value b (ground arith) (ground arith)
            | inr next ↦
                other-next word value b (ground arith)
                ∙ rest.none_left e b (ground arith) (ground arith)
          ];
          before = λ b low high. elim (Bool-cases (ltb b (suc word * 64))) [
            | inl this ↦ other-none word value b (ground arith) (ground arith)
            | inr next ↦ other-next word value b (ground arith) ∙ rest.before b (ground arith) high
          ];
          here = λ i lt. rest.here i lt ∙ sym (other-next word value _ (omega (arith, rest.least)));
          small = rest.small;
        })
  ]
