-- ===== src/Avi/Aligned.antt =====
-- nn20clock_avi.c: the index that a parse keeps.
use videoalarmclock.Prelude.{
  ℕ, ◌≡◌, ◌≢◌, inl, inr, true, ◌||◌, some, List, arith, ◌==◌, Option-cases, if-split,
}
use videoalarmclock.Prelude.Words.{sub32}
use videoalarmclock.Avi.{Reader, Info, list_type_bytes}
use videoalarmclock.Avi.Index.{resolve_index_base, base_agrees, read_index_record, has_index}

-- The first record of an index names the chunk that it points at, within the frames.
abbrev pub Aligned : Reader → Info → Type 0
Aligned read info =
    (id : List ℕ) × (offset : ℕ) × (read_index_record read info 0 ≡ some (id, offset))
    × (base_agrees read info info.index_base id offset ≡ true)

abbrev Kept : Reader → Info → Type 0
Kept read info = has_index info ≡ true → Aligned read info

-- An index that is kept for a film with frames lines up with them: one of the two conventions makes
-- its first record point at the chunk that it names.
pub resolve_index_base-Aligned :
    (read : Reader) (info : Info)
    → info.movi_start ≢ 0
    → has_index (resolve_index_base read info) ≡ true
    → Aligned read (resolve_index_base read info)
unfolding resolve_index_base read_index_record base_agrees
resolve_index_base-Aligned read info h =
    if-split (Kept read) ((info.index_count == 0) || (info.movi_start == 0))
      (λ e k. absurd (ground (arith, e, k, h)))
      (λ e. elim (Option-cases (read_index_record read info 0)) [
        | inl gone ↦ rw gone (λ k. absurd (ground (arith, k)))
        | inr ((id, offset), r) ↦ rw r (
            if-split (Kept read)
              (base_agrees read info (sub32 info.movi_start list_type_bytes) id offset)
              (λ a k. (id, offset, r, a))
              (λ n.
                if-split (Kept read) (base_agrees read info 0 id offset) (λ a k. (id, offset, r, a))
                  (λ m k. absurd (ground (arith, k)))))
      ])
