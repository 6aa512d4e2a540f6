-- ===== src/Writer/Batches.antt =====
-- What a run over the batches copies.
use mathlib.Core.List.{append_assoc, append-nil}
use bodp_app.Prelude.{
  ℕ, ◌+◌, ◌≡◌, refl, sym, ap, ◌∙◌, inl, inr, Bool, false, List, [], ◌∷◌, ◌++◌, length, arith,
  Bool-cases,
}
use bodp_app.Table.{rows_of}
use bodp_app.Models.{DatasetRecord}
use bodp_app.Writer.Melt.{Row}
use bodp_app.Writer.Copy.{Copy, Batch, copy_rows, copy_batches}
use bodp_app.Writer.Laws.{
  melt_all, rows_in, melt_all-append, gathered, counted, length-append, flush_chunk-rows,
  flush_chunk-written, copy_rows-gathered, copy_rows-counted, copy_rows-Extends, Extends,
  Extends-trans, flush_chunk-Extends,
}

-- No checkpoint raises.
unfoldable pub IsUndisturbed : List Batch → Type 0
IsUndisturbed [] = Unit
IsUndisturbed (b ∷ bs) = (b.raises ≡ false) × IsUndisturbed bs

module _ (draw : ℕ → ℕ) (limit : ℕ) (last_raises : Bool) (melt : Row → List DatasetRecord) where
  pub copy_batches-ends :
      (bs : List Batch) (c : Copy)
      → last_raises ≡ false
      → IsUndisturbed bs
      → (copy_batches draw limit last_raises melt bs c).0 ≡ false
  unfolding copy_batches IsUndisturbed
  copy_batches-ends [] c l h = rw l refl
  copy_batches-ends (b ∷ bs) c l (h, hs) =
      rw h (copy_batches-ends bs (copy_rows draw limit melt b.rows c) l hs)

  pub copy_batches-rows :
      (bs : List Batch) (c : Copy)
      → IsUndisturbed bs
      → rows_of (copy_batches draw limit last_raises melt bs c).1.table
        ≡ gathered c ++ melt_all melt (rows_in bs)
  unfolding copy_batches IsUndisturbed rows_in melt_all
  copy_batches-rows [] c h = flush_chunk-rows draw limit c ∙ sym (append-nil _)
  copy_batches-rows (b ∷ bs) c (h, hs) = rw h (
      copy_batches-rows bs (copy_rows draw limit melt b.rows c) hs
      ∙ (ap (λ l. l ++ melt_all melt (rows_in bs)) (copy_rows-gathered draw limit melt b.rows c)
          ∙ (append_assoc (gathered c) (melt_all melt b.rows) (melt_all melt (rows_in bs))
              ∙ ap (λ l. gathered c ++ l) (sym (melt_all-append melt b.rows (rows_in bs))))))

  pub copy_batches-written :
      (bs : List Batch) (c : Copy)
      → IsUndisturbed bs
      → (copy_batches draw limit last_raises melt bs c).1.written
        ≡ counted c + length (melt_all melt (rows_in bs))
  unfolding copy_batches IsUndisturbed rows_in melt_all
  copy_batches-written [] c h = omega (arith, flush_chunk-written draw limit c)
  copy_batches-written (b ∷ bs) c (h, hs) = rw h (
      omega (
        arith,
        copy_batches-written bs (copy_rows draw limit melt b.rows c) hs,
        copy_rows-counted draw limit melt b.rows c,
        ap length (melt_all-append melt b.rows (rows_in bs)),
        length-append {0} (melt_all melt b.rows) (melt_all melt (rows_in bs)),
      ))

  -- Whatever checkpoint raises: what was copied is a beginning of what was to be copied.
  pub copy_batches_beginning :
      (bs : List Batch) (c : Copy)
      → (rest : List DatasetRecord) × (rows_of
              (copy_batches draw limit last_raises melt bs c).1.table
            ++ rest
          ≡ gathered c ++ melt_all melt (rows_in bs))
  unfolding copy_batches rows_in melt_all
  copy_batches_beginning [] c =
      ([], append-nil _ ∙ (flush_chunk-rows draw limit c ∙ sym (append-nil _)))
  copy_batches_beginning (b ∷ bs) c =
      let here = copy_rows draw limit melt b.rows c in
      let later = melt_all melt (rows_in bs) in
      let upto : gathered here ++ later ≡ gathered c ++ melt_all melt (b.rows ++ rows_in bs) =
        ap (λ l. l ++ later) (copy_rows-gathered draw limit melt b.rows c)
        ∙ (append_assoc (gathered c) (melt_all melt b.rows) later
            ∙ ap (λ l. gathered c ++ l) (sym (melt_all-append melt b.rows (rows_in bs)))) in
      let (rest, goes_on) = copy_batches_beginning bs here in
      elim (Bool-cases b.raises) [
        | inl e ↦ (
          here.chunk ++ later,
          rw e (sym (append_assoc (rows_of here.table) here.chunk later) ∙ upto),
        )
        | inr e ↦ (rest, rw e (goes_on ∙ upto))
      ]

  pub copy_batches-Extends :
      (bs : List Batch) (c : Copy) → Extends c (copy_batches draw limit last_raises melt bs c).1
  unfolding copy_batches
  copy_batches-Extends [] c = flush_chunk-Extends draw limit c
  copy_batches-Extends (b ∷ bs) c =
      let here = copy_rows draw limit melt b.rows c in
      elim (Bool-cases b.raises) [
        | inl e ↦ rw e (copy_rows-Extends draw limit melt b.rows c)
        | inr e ↦ rw e (
            Extends-trans c here (copy_batches draw limit last_raises melt bs here).1
              (copy_rows-Extends draw limit melt b.rows c) (copy_batches-Extends bs here))
      ]
