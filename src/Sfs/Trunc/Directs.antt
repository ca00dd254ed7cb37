-- ===== src/Sfs/Trunc/Directs.antt =====
-- The loop over the direct blocks in sfs_itrunc, kern/fs/sfs/sfs_bmap.c.
use project_os.Prelude.{
  ℕ, zero, suc, ◌+◌, ◌≤◌, ◌<◌, ◌≡◌, ◌≢◌, refl, Bool, not, ◌&&◌, ◌||◌, arith, ltb, leb, ◌==◌, get_or,
  length, length-set, get_or-set, Bool-cases, inl, inr, ◌∙◌, sym,
}
use project_os.Outcome.Ends
use project_os.Outcome.Ends.{Ends, returns, fails}
use project_os.Sfs.{Block, File, ndirect}
use project_os.Sfs.Balloc.{sfs_bfree-Ends}
use project_os.Sfs.Bmap.View.{max_blocks}
use project_os.Sfs.Bmap.Mapping.{on_fs-Ends}
use project_os.Sfs.Trunc.{free_direct, trunc_directs}
use project_os.Sfs.Trunc.Trimmed.{
  SameFields, view, Holds, Trimmed, Trimmed-refl, Trimmed-free, Trimmed-trans,
}

-- The positions from `i` on, `n` of them.
abbrev pub range : ℕ → ℕ → ℕ → Bool
range i n j = leb i j && ltb j (i + n)

-- The inode, but for its direct blocks.
pub record SameInode (s s' : File) : Type 0 where
  pub indirect : s'.indirect ≡ s.indirect
  pub fields : SameFields s s'

-- The loop over the direct blocks has passed the positions where `gone` is tested.
pub record DirectsDone (s : File) (buf : Block) (gone : ℕ → Bool) (s' : File) : Type 0 where
  pub trimmed : Trimmed s.fs (view s.direct buf) s.indirect gone s'.fs (view s'.direct buf)
  pub directs : length s'.direct ≡ ndirect
  pub same : SameInode s s'
  pub open same use *

module _ (s : File) (blocklen : ℕ) (buf : Block) (directs : length s.direct ≡ ndirect)
    (h : Holds s.fs (view s.direct buf) s.indirect) where
  free_direct-Ends :
      (i : ℕ)
      → i < ndirect
      → Ends
          (λ _. DirectsDone s buf (λ j. leb blocklen j && (i == j)))
          (λ e s'. ⊥)
          (free_direct blocklen i s)
  unfolding free_direct
  free_direct-Ends i low = elim (Bool-cases (leb blocklen i && not (get_or s.direct i 0 == 0))) [
    | inl go ↦
        let some_ : view s.direct buf i ≢ 0 = ground arith in
        let here : view s.direct buf i ≡ get_or s.direct i 0 = ground arith in
        let u = h.blocks i (omega arith) in
        rw go (
          Ends.bind
            (on_fs-Ends s (
              sfs_bfree-Ends s.fs (get_or s.direct i 0) h.sound
                (ground (arith, u.inside some_, here)) (ground arith)
                (rw here at (u.marked some_))))
            (λ _ s1 (fs', fr, e). rw e (
              returns (record {
                trimmed =
                    Trimmed-free s.fs (view s.direct buf) s.indirect h i (omega arith) some_ fs'
                      (rw (sym here) at fr) _
                      (λ j p. ground (arith, get_or-set s.direct i 0 j 0 (omega (arith, directs))))
                      _ (λ j p. ground arith);
                directs = length-set s.direct i 0 ∙ directs;
                same = record { indirect = refl; fields = (refl, refl, refl) };
              })))
            (λ _ _ (_, void, _). void))
    | inr stay ↦ rw stay (
        returns (record {
          trimmed = Trimmed-refl s.fs (view s.direct buf) s.indirect h _ (λ j p g. ground arith);
          directs = directs;
          same = record { indirect = refl; fields = (refl, refl, refl) };
        }))
  ]

DirectsDone-trans :
    {gone₁ gone₂ : ℕ → Bool} (s s1 s2 : File) (buf : Block) (gone : ℕ → Bool)
    → Holds s.fs (view s.direct buf) s.indirect
    → DirectsDone s buf gone₁ s1
    → DirectsDone s1 buf gone₂ s2
    → ((j : ℕ) → j < max_blocks → gone j ≡ (gone₁ j || gone₂ j))
    → DirectsDone s buf gone s2
DirectsDone-trans s s1 s2 buf gone h d e both = record {
  trimmed =
      Trimmed-trans s.fs (view s.direct buf) s.indirect h gone d.trimmed
        (rw d.indirect at e.trimmed) both;
  directs = e.directs;
  same = record {
    indirect = e.indirect ∙ d.indirect;
    fields = (e.fields.0 ∙ d.fields.0, e.fields.1 ∙ d.fields.1, e.fields.2 ∙ d.fields.2);
  };
}

-- The loop over the direct blocks frees those from `blocklen` on.
pub trunc_directs-Ends :
    (s : File) (blocklen : ℕ) (buf : Block) (n i : ℕ)
    → length s.direct ≡ ndirect
    → Holds s.fs (view s.direct buf) s.indirect
    → i + n ≤ ndirect
    → Ends
        (λ _. DirectsDone s buf (λ j. leb blocklen j && range i n j))
        (λ e s'. ⊥)
        (trunc_directs blocklen n i s)
unfolding trunc_directs
trunc_directs-Ends s blocklen buf zero i directs h fits = returns (record {
  trimmed = Trimmed-refl s.fs (view s.direct buf) s.indirect h _ (λ j p g. absurd (ground arith));
  directs = directs;
  same = record { indirect = refl; fields = (refl, refl, refl) };
})
trunc_directs-Ends s blocklen buf (suc n) i directs h fits =
    Ends.bind (free_direct-Ends s blocklen buf directs h i (omega arith))
      (λ _ s1 d.
        Ends.mono
          (trunc_directs-Ends s1 blocklen buf n (i + 1) d.directs
            (rw (sym d.indirect) at d.trimmed.holds) (omega arith))
          (λ _ s2 e. DirectsDone-trans s s1 s2 buf _ h d e (λ j p. ground arith))
          (λ _ _ void. void))
      (λ _ _ void. void)
