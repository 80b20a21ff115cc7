-- ===== src/Orders/Allocation.antt =====
-- The shares of a discount that the items of an order carry come to the discount, to within a cent an
-- item.
use mathlib.Core.Path.{subst}
use electro_mart_backend.Prelude.{
  leb, ap, sym, ◌∙◌, ℕ, ◌≡◌, ◌+◌, ◌*◌, ◌≤◌, ◌<◌, refl, arith, List, [], ◌∷◌, All, length,
  Bool-cases, inl, inr, ◌||◌,
}
use electro_mart_backend.Prelude.Int.{ℤ, pos, pos_part, eqb_ℤ, ◌+ℤ◌, ◌≤ℤ◌, int_laws}
use electro_mart_backend.Rows.{OrderItem}
use electro_mart_backend.Orders.Discounts.{
  Rounding, allocated_share, allocate_item, allocate_item_discounts, item_sum,
}

-- `r` is less than a cent, or a cent, off the part `l / s` of the discount `d`.
abbrev pub IsCentOff : ℕ → ℕ → ℕ → ℕ → Type 0
IsCentOff l d s r = (r * s ≤ l * d + s) × (l * d ≤ r * s + s)

-- The decimal arithmetic computes a share of an amount that is not negative to within a cent.
abbrev pub IsRounded : Rounding → Type 0
IsRounded rounding =
    (l d s : ℕ)
    → 0 < s
    → (r : ℕ) × (rounding.share (pos l) (pos d) (pos s) ≡ pos r) × IsCentOff l d s r

share_cents :
    (rounding : Rounding) (l d s : ℕ)
    → IsRounded rounding
    → 0 < s
    → (r : ℕ) × (allocated_share rounding (pos s) (pos d) (pos l) ≡ pos r) × IsCentOff l d s r
unfolding allocated_share
share_cents rounding l d s exact some_ =
    elim (Bool-cases (eqb_ℤ (pos s) (pos 0) || eqb_ℤ (pos d) (pos 0))) [
      | inl no_discount ↦
          let none_ : d ≡ 0 = ground arith in (0, rw no_discount refl, rw none_ (grind arith))
      | inr discounted ↦ rw discounted (exact l d s some_)
    ]

of_line : (a : ℤ) → pos 0 ≤ℤ a → a ≡ pos (pos_part a)
of_line (ℤ.pos n) h = refl
of_line (ℤ.negsuc n) h = absurd (omega arith)

plus_pos : (a b : ℤ) (m n : ℕ) → a ≡ pos m → b ≡ pos n → a +ℤ b ≡ pos (m + n)
plus_pos a b m n e f = rw (e, f) (omega int_laws)

-- What the items carry together, beside what their lines come to.
carried :
    (rounding : Rounding) (items : List OrderItem) (d s : ℕ)
    → IsRounded rounding
    → 0 < s
    → All (λ item. pos 0 ≤ℤ item.line_total) items
    → (r l : ℕ) × (item_sum
          (λ i. i.allocated_discount)
          (allocate_item_discounts rounding items (pos s) (pos d))
        ≡ pos r)
      × (item_sum (λ i. i.line_total) items ≡ pos l)
      × (r * s ≤ l * d + length items * s)
      × (l * d ≤ r * s + length items * s)
unfolding allocate_item_discounts allocate_item item_sum
carried rounding [] d s exact some_ lines = (0, 0, refl, refl, grind arith, grind arith)
carried rounding (item ∷ items) d s exact some_ (line, lines) =
    let (r, l, rest, total_, up, down) = carried rounding items d s exact some_ lines in
    let (q, share, (high, low)) = share_cents rounding (pos_part item.line_total) d s exact some_ in
    let e = of_line item.line_total line in
    (
      q + r,
      pos_part item.line_total + l,
      plus_pos _ _ q r (ap (allocated_share rounding (pos s) (pos d)) e ∙ share) rest,
      plus_pos _ _ _ l e total_,
      grind arith,
      grind arith,
    )

product_le : (a b s : ℕ) → a ≤ b → a * s ≤ b * s
product_le a b s h = grind arith

-- A common factor above zero.
cancel_factor : (a b s : ℕ) → 0 < s → a * s ≤ b * s → a ≤ b
cancel_factor a b s some_ h = elim (Bool-cases (leb a b)) [
  | inl most ↦ ground arith
  | inr more ↦
      let above : b + 1 ≤ a = ground arith in
      let more_product = product_le (b + 1) a s above in absurd (grind (arith, more_product))
]

-- The discounts that the items of an order carry differ from the discount of the order together by a
-- cent an item at most, if the lines are not negative and come to a subtotal above zero, and the
-- decimal arithmetic computes a share to within a cent.
pub allocate_item_discounts-item_sum :
    (rounding : Rounding) (items : List OrderItem) (d s : ℕ)
    → IsRounded rounding
    → 0 < s
    → All (λ item. pos 0 ≤ℤ item.line_total) items
    → item_sum (λ i. i.line_total) items ≡ pos s
    → (r : ℕ) × (item_sum
          (λ i. i.allocated_discount)
          (allocate_item_discounts rounding items (pos s) (pos d))
        ≡ pos r)
      × (r ≤ d + length items)
      × (d ≤ r + length items)
allocate_item_discounts-item_sum rounding items d s exact some_ lines whole_ =
    let (r, l, rest, total_, up, down) = carried rounding items d s exact some_ lines in
    let same : l ≡ s = ap pos_part (sym total_ ∙ whole_) in
    let high : r * s ≤ s * d + length items * s =
      subst (λ x. r * s ≤ x * d + length items * s) same up in
    let low : s * d ≤ r * s + length items * s =
      subst (λ x. x * d ≤ r * s + length items * s) same down in
    (
      r,
      rest,
      cancel_factor r (d + length items) s some_ (grind (arith, high)),
      cancel_factor d (r + length items) s some_ (grind (arith, low)),
    )
