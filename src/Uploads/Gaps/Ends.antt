-- ===== src/Uploads/Gaps/Ends.antt =====
-- The loop of src/chunked-upload.ts that sends the missing ranges: it ends, and when it ends without
-- an error the server misses nothing.
use privchat_sdk_typescript.Prelude.{
  ℕ, zero, suc, ◌+◌, ◌-◌, ◌*◌, ◌≤◌, ◌<◌, ◌≡◌, ◌⊎◌, inl, inr, refl, Option, some, List, [], ◌∷◌, All,
  length, Result, err, ok, arith, Bool-cases, ltb, Result-cases, subst, ap, ◌∙◌,
}
use privchat_sdk_typescript.Sorting.{sort-All}
use privchat_sdk_typescript.Codes.{ChunkVerdict}
use privchat_sdk_typescript.Uploads.{
  UploadDeps, UploadError, ChunkedUploadSession, Range, On, after, put_chunk, fetch_status,
  subarray,
}
use privchat_sdk_typescript.Uploads.Sizer.{IsSized, on_success-IsSized, on_failure-IsSized}
use privchat_sdk_typescript.Uploads.Gaps.{
  Gaps, Round, again, over, missing_bytes, by_offset, advanced, report, stored, delayed, resynced,
  budgeted, settle, send_piece, follow, loop_body, send_gaps, sent_length, chunk_retries,
}
use privchat_sdk_typescript.Uploads.Gaps.Keeping.{
  IsGap, Keeps, piece_length_bounds, advanced-IsGap, missing_bytes-advanced, missing_bytes-sort,
}

module _ {S R : Type 0} (d : UploadDeps S R) (session : ChunkedUploadSession) (blob : List ℕ)
    (Behind : S → List Range → Type 0) (Completed : S → Type 0)
    (keeps : Keeps d session blob Behind Completed) where
  -- What holds at the loop's head.
  pub record IsLoop (st : Gaps R) (s : S) : Type 0 where
    pub sized : IsSized st.sizer
    pub positive : All IsGap st.gaps
    pub budget : st.failures_since_progress ≤ chunk_retries
    pub behind : Behind s st.gaps

  -- Every round stores a byte or uses up one of the failures allowed till then.
  abbrev pub rounds_left : Gaps R → ℕ
  rounds_left st = 3 * missing_bytes st.gaps + (chunk_retries - st.failures_since_progress)

  abbrev Progresses : ℕ → Result UploadError (Round R) × S → Type 0
  Progresses m (err e, s) = Unit {0}
  Progresses m (ok over, s) = Completed s
  Progresses m (ok (again st), s) = IsLoop st s × (rounds_left st < m)

  module _ (st : Gaps R) (gap : Range) (rest : List Range) (started : ℕ) where
    stored-Progresses :
        (s : S) (len m : ℕ)
        → IsSized st.sizer
        → All IsGap (gap ∷ rest)
        → Behind s (advanced gap rest len)
        → 0 < len
        → len ≤ gap.length
        → 3 * missing_bytes (gap ∷ rest) ≤ m
        → Progresses m (stored d session blob st gap rest len started s)
    unfolding stored report
    stored-Progresses s len m sized positive behind some_bytes fits bound = (
      record {
        sized = on_success-IsSized st.sizer sized d len ((d.now s).0 - started);
        positive = advanced-IsGap gap rest len positive.1;
        budget = omega arith;
        behind = keeps.callback _ _ _ (keeps.clock s _ behind);
      },
      omega (arith, missing_bytes-advanced gap rest len fits),
    )

  module _ (st : Gaps R) (s : S) (loop : IsLoop st s) (offset : ℕ) where
    delayed-Progresses : Progresses (rounds_left st) (
        budgeted d session blob
          (suc st.failures_since_progress)
          offset
          (delayed d session blob st (suc st.failures_since_progress))
          s)
    unfolding budgeted delayed
    delayed-Progresses = elim (Bool-cases (ltb chunk_retries (suc st.failures_since_progress))) [
      | inl spent ↦ rw spent tt
      | inr left ↦ rw left (
        record {
          sized = on_failure-IsSized st.sizer loop.sized;
          positive = loop.positive;
          budget = ground arith;
          behind = keeps.timer _ s st.gaps loop.behind;
        },
        ground arith,
      )
    ]

    resynced_left :
        suc st.failures_since_progress ≤ chunk_retries
        → Progresses
            (rounds_left st)
            (resynced d session blob st (suc st.failures_since_progress) s)
    unfolding resynced report
    resynced_left left = elim (Result-cases (fetch_status d session s).0) [
      | inr (e, failed) ↦ rw (failed, after) tt
      | inl (status, given) ↦ elim (Bool-cases status.completed) [
        | inl done ↦ rw (given, after, done) (keeps.status_completed s status given done)
        | inr more ↦
            let kept = keeps.status_listed s status given more in
            let fewer = keeps.status_left s st.gaps status loop.behind given more in
            rw (given, after, more)
              (
                record {
                  sized = loop.sized;
                  positive = sort-All by_offset IsGap status.missing kept.0;
                  budget = left;
                  behind = keeps.callback _ _ _ kept.1;
                },
                omega (arith, missing_bytes-sort status.missing, fewer),
              )
      ]
    ]

    resynced-Progresses : Progresses (rounds_left st) (
        budgeted d session blob
          (suc st.failures_since_progress)
          offset
          (resynced d session blob st (suc st.failures_since_progress))
          s)
    unfolding budgeted resynced report
    resynced-Progresses = elim (Bool-cases (ltb chunk_retries (suc st.failures_since_progress))) [
      | inl spent ↦ rw spent tt
      | inr left ↦ rw left (resynced_left (ground arith))
    ]

  settle-Progresses :
      (verdict : ChunkVerdict) (st : Gaps R) (gap : Range) (rest : List Range) (len started : ℕ)
      (s : S)
      → st.gaps ≡ gap ∷ rest
      → IsLoop st s
      → 0 < len
      → len ≤ gap.length
      → (verdict ≡ ChunkVerdict.ok → Behind s (advanced gap rest len))
      → Progresses (rounds_left st) (settle d session blob verdict st gap rest len started s)
  unfolding settle
  settle-Progresses ChunkVerdict.ok st gap rest len started s e loop some_bytes fits behind =
      stored-Progresses st gap rest started s len (rounds_left st) loop.sized
        (subst (All IsGap) e loop.positive) (behind refl) some_bytes fits (rw e (omega arith))
  settle-Progresses ChunkVerdict.gone st gap rest len started s e loop some_bytes fits behind = tt
  settle-Progresses ChunkVerdict.restart st gap rest len started s e loop some_bytes fits behind =
      tt
  settle-Progresses ChunkVerdict.fatal st gap rest len started s e loop some_bytes fits behind = tt
  settle-Progresses ChunkVerdict.retry st gap rest len started s e loop some_bytes fits behind =
      delayed-Progresses st s loop gap.offset
  settle-Progresses ChunkVerdict.resync st gap rest len started s e loop some_bytes fits behind =
      resynced-Progresses st s loop gap.offset

  IsLoop-later : (st : Gaps R) (s s' : S) → IsLoop st s → Behind s' st.gaps → IsLoop st s'
  IsLoop-later st s s' loop behind = record {
    sized = loop.sized;
    positive = loop.positive;
    budget = loop.budget;
    behind = behind;
  }

  send_piece-Progresses :
      (st : Gaps R) (gap : Range) (rest : List Range) (s : S)
      → st.gaps ≡ gap ∷ rest
      → IsLoop st s
      → Progresses (rounds_left st) (send_piece d session blob st gap rest s)
  unfolding send_piece
  send_piece-Progresses st gap rest s e loop =
      let len : ℕ = sent_length d session blob st gap in
      let bytes : List ℕ = subarray blob gap.offset (gap.offset + len) in
      let within =
        piece_length_bounds st.sizer.base (length blob) st.sizer.next gap loop.sized.positive
          loop.sized.size.0 (subst (All IsGap) e loop.positive).0 in
      let clocked = keeps.clock s st.gaps loop.behind in
      elim (Result-cases (put_chunk d session gap.offset bytes (d.now s).1).0) [
        | inr (thrown, failed) ↦ rw (failed, after) tt
        | inl (verdict, given) ↦
            rw (given, after)
              (settle-Progresses verdict st gap rest len (d.now s).0
                (put_chunk d session gap.offset bytes (d.now s).1).1 e
                (IsLoop-later st s _ loop (keeps.chunk_kept _ gap.offset bytes st.gaps clocked))
                within.0 within.1
                (λ stored_it.
                  keeps.chunk_stored _ gap rest len (subst (Behind _) e clocked) within.1
                    (given ∙ ap ok stored_it)))
      ]

  -- The server misses nothing, or has said that it has the whole file.
  abbrev pub Uploaded : S → Type 0
  Uploaded s = Behind s [] ⊎ Completed s

  -- The loop ends, and if it does not throw, the file is uploaded.
  abbrev pub Ends : Option (Result UploadError (Unit {0}) × S) → Type 0
  Ends o =
      (r : Result UploadError (Unit {0})) × (s : S) × (o ≡ some (r, s)) × On (λ u. Uploaded) (r, s)

  follow-Ends :
      (round : Result UploadError (Round R) × S)
      (next : Gaps R → S → Option (Result UploadError (Unit {0}) × S)) (m : ℕ)
      → Progresses m round
      → ((st : Gaps R) (s : S) → IsLoop st s → rounds_left st < m → Ends (next st s))
      → Ends (follow round next)
  follow-Ends (err e, s) next m p ih = (err e, s, refl, tt)
  follow-Ends (ok over, s) next m p ih = (ok tt, s, refl, inr p)
  follow-Ends (ok (again st), s) next m p ih = ih st s p.0 p.1

  loop_body-Ends :
      (gaps : List Range) (st : Gaps R) (s : S)
      (next : Gaps R → S → Option (Result UploadError (Unit {0}) × S))
      → st.gaps ≡ gaps
      → IsLoop st s
      → ((st' : Gaps R) (s' : S)
          → IsLoop st' s'
          → rounds_left st' < rounds_left st
          → Ends (next st' s'))
      → Ends (loop_body d session blob gaps st s next)
  unfolding loop_body
  loop_body-Ends [] st s next e loop ih = (ok tt, s, refl, inl (subst (Behind s) e loop.behind))
  loop_body-Ends (gap ∷ rest) st s next e loop ih =
      follow-Ends (send_piece d session blob st gap rest s) next (rounds_left st)
        (send_piece-Progresses st gap rest s e loop) ih

  -- With more fuel than rounds are left the loop ends, and if it does not throw, the server misses
  -- nothing or has said that it has the whole file.
  pub send_gaps-Ends :
      (fuel : ℕ) (st : Gaps R) (s : S)
      → IsLoop st s
      → rounds_left st < fuel
      → Ends (send_gaps d session blob fuel st s)
  unfolding send_gaps
  send_gaps-Ends zero st s loop enough = absurd (omega arith)
  send_gaps-Ends (suc fuel) st s loop enough =
      loop_body-Ends st.gaps st s (send_gaps d session blob fuel) refl loop
        (λ st' s' loop' fewer. send_gaps-Ends fuel st' s' loop' (omega arith))
