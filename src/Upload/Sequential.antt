-- ===== src/Upload/Sequential.antt =====
-- A sequential upload: one benchmark for each file, in order.
use bit_bench.Prelude.{
  ℕ, ◌+◌, ◌-◌, ◌<◌, ◌≡◌, refl, Option, none, some, List, [], ◌∷◌, ◌++◌, Bool, true, false, ◌∙◌, ap,
  map, length, ◌==◌, arith, append_assoc, Str,
}
use bit_bench.Progress.{UploadPhase}
use bit_bench.Upload.{
  UploadState, UploadedFile, Outcome, send, start_file, file_request, submit_each, after_answer,
  conclude_file,
}
use bit_bench.Upload.Statuses.{at_request, send-start_file}

module _ {Num : Type 0} (server : ℕ → Outcome) (count : ℕ) where
  -- One round, from what its request meets.
  round_eq :
      (f : UploadedFile) (rest : List UploadedFile) (i : ℕ) (s answered : UploadState Num)
      (failure : Option Str) (last : Bool)
      → send (file_request s f) (server i) (start_file i s) ≡ answered
      → (i == count - 1) ≡ last
      → (server i).failure ≡ failure
      → submit_each server count (f ∷ rest) i s
        ≡ after_answer failure answered
            (submit_each server count rest (i + 1) (conclude_file last answered))
  unfolding submit_each
  round_eq f rest i s answered failure last e at_end failed = rw (e, at_end, failed) refl

  -- A round that is answered and is not the last.
  round :
      (f : UploadedFile) (rest : List UploadedFile) (i : ℕ) (s : UploadState Num)
      → (server i).failure ≡ none
      → i + 1 < count
      → (loaded : ℕ) × (total : ℕ) × (submit_each server count (f ∷ rest) i s
          ≡ submit_each server count rest (i + 1) (
              at_request s i UploadPhase.done loaded total
                (s.sent ++ file_request s f ∷ [])
                s.at_results))
  unfolding after_answer conclude_file
  round f rest i s answered more =
      let (phase, loaded, total, e) = send-start_file f (server i) i s in
      (loaded, total, round_eq f rest i s _ none false e (ground arith) answered)

  -- The last round, if it is answered.
  last_round :
      (f : UploadedFile) (i : ℕ) (s : UploadState Num)
      → (server i).failure ≡ none
      → i + 1 ≡ count
      → (loaded : ℕ) × (total : ℕ) × (submit_each server count (f ∷ []) i s ≡ (
        at_request s i UploadPhase.done loaded total (s.sent ++ file_request s f ∷ []) true,
        none,
      ))
  unfolding after_answer conclude_file submit_each
  last_round f i s answered at_end =
      let (phase, loaded, total, e) = send-start_file f (server i) i s in
      (loaded, total, round_eq f [] i s _ none true e (ground arith) answered)

  -- A round that fails.
  failed_round :
      (f : UploadedFile) (rest : List UploadedFile) (i : ℕ) (s : UploadState Num) (message : Str)
      → (server i).failure ≡ some message
      → (phase : UploadPhase) × (loaded : ℕ) × (total : ℕ) × (submit_each server count
            (f ∷ rest)
            i
            s
          ≡ (
            at_request s i phase loaded total (s.sent ++ file_request s f ∷ []) s.at_results,
            some message,
          ))
  unfolding after_answer
  failed_round f rest i s message failed =
      let (phase, loaded, total, e) = send-start_file f (server i) i s in
      (phase, loaded, total, round_eq f rest i s _ (some message) _ e refl failed)

  -- The state after file `i`, with the requests of the files so far behind the ones sent before.
  abbrev past : UploadState Num → UploadedFile → ℕ → ℕ → ℕ → UploadState Num
  past s f i loaded total =
      at_request s i UploadPhase.done loaded total (s.sent ++ file_request s f ∷ []) s.at_results

  sent_all :
      (s : UploadState Num) (f : UploadedFile) (rest : List UploadedFile)
      → (s.sent ++ file_request s f ∷ []) ++ map (file_request s) rest
        ≡ s.sent ++ map (file_request s) (f ∷ rest)
  sent_all s f rest = append_assoc s.sent (file_request s f ∷ []) (map (file_request s) rest)

  -- All files from index `i` on are answered.
  pub submit_each-all :
      (f : UploadedFile) (rest : List UploadedFile) (i : ℕ) (s : UploadState Num)
      → ((j : ℕ) → j < count → (server j).failure ≡ none)
      → i + length (f ∷ rest) ≡ count
      → (loaded : ℕ) × (total : ℕ) × (submit_each server count (f ∷ rest) i s ≡ (
        at_request s
            (count - 1)
            UploadPhase.done
            loaded
            total
            (s.sent ++ map (file_request s) (f ∷ rest))
            true,
        none,
      ))
  unfolding file_request
  submit_each-all f [] i s answered at_end =
      let (loaded, total, e) = last_round f i s (answered i (omega arith)) (omega arith) in
      let last : i ≡ count - 1 = omega arith in
      (
        loaded,
        total,
        e
            ∙ ap
                (λ k. (
                  at_request s k UploadPhase.done loaded total (s.sent ++ file_request s f ∷ [])
                      true,
                  none,
                ))
                last,
      )
  submit_each-all f (g ∷ rest) i s answered at_end =
      let (loaded, total, e) = round f (g ∷ rest) i s (answered i (omega arith)) (omega arith) in
      let (loaded', total', e') =
        submit_each-all g rest (i + 1) (past s f i loaded total) answered (omega arith) in
      (
        loaded',
        total',
        e
            ∙ e'
            ∙ ap
                (λ sent. (at_request s (count - 1) UploadPhase.done loaded' total' sent true, none))
                (sent_all s f (g ∷ rest)),
      )

  -- The files before `f`, which starts at index `i + length before`, are answered, and `f` fails.
  pub submit_each-failed :
      (before : List UploadedFile) (f : UploadedFile) (after : List UploadedFile) (i k : ℕ)
      (s : UploadState Num) (message : Str)
      → i + length before ≡ k
      → ((j : ℕ) → j < k → (server j).failure ≡ none)
      → (server k).failure ≡ some message
      → k + length (f ∷ after) ≡ count
      → (phase : UploadPhase) × (loaded : ℕ) × (total : ℕ) × (submit_each server count
            (before ++ f ∷ after)
            i
            s
          ≡ (
            at_request s k phase loaded total
                (s.sent ++ map (file_request s) (before ++ f ∷ []))
                s.at_results,
            some message,
          ))
  unfolding file_request
  submit_each-failed [] f after i k s message at answered failed at_end =
      let same : i ≡ k = omega arith in
      let (phase, loaded, total, e) = failed_round f after k s message failed in
      (phase, loaded, total, ap (λ j. submit_each server count (f ∷ after) j s) same ∙ e)
  submit_each-failed (g ∷ before) f after i k s message at answered failed at_end =
      let (loaded, total, e) =
        round g (before ++ f ∷ after) i s (answered i (omega arith)) (omega arith) in
      let (phase, loaded', total', e') =
        submit_each-failed before f after (i + 1) k (past s g i loaded total) message (omega arith)
          answered failed at_end in
      (
        phase,
        loaded',
        total',
        e
            ∙ e'
            ∙ ap (λ sent. (at_request s k phase loaded' total' sent s.at_results, some message))
                (sent_all s g (before ++ f ∷ [])),
      )
