-- ===== src/Dedup/Decided.antt =====
-- That src/core/record/l1-dedup.ts decides on every memory, and loses none that the model forgot.
use chris_tencent_db_agent_m.Prelude.{
  ◌≡◌, ◌⊎◌, inl, inr, refl, String, Bool, true, false, ◌||◌, List, [], ◌∷◌, ◌++◌, All, str_eq,
  eq_iff, arith, if_elim, ◌∙◌,
}
use chris_tencent_db_agent_m.Dedup.{
  store, DedupDecision, Answer, unreadable, entries, ExtractedMemory, decisions_of, is_decided,
  stored, missing, fallback_store_all, parse_answer, parse_batch_result,
}

-- The answer has an entry for the id.
unfoldable pub mentions : Answer → String → Bool
unfolding is_decided decisions_of
mentions unreadable id = false
mentions (entries items) id = is_decided id (decisions_of items)

is_decided-append :
    (id : String) (xs ys : List DedupDecision)
    → is_decided id (xs ++ ys) ≡ (is_decided id xs || is_decided id ys)
unfolding is_decided
is_decided-append id [] ys = refl
is_decided-append id (x ∷ xs) ys = ground (arith, is_decided-append id xs ys)

-- What decides on the id stores it.
abbrev pub IsStored : String → List DedupDecision → Type 0
IsStored id ds = All (λ d. (str_eq d.record_id id ≡ false) ⊎ (d.action ≡ store)) ds

abbrev pub has_memory : String → List ExtractedMemory → Bool
has_memory id [] = false
has_memory id (m ∷ ms) = str_eq m.record_id id || has_memory id ms

is_decided-missing :
    (id : String) (ms : List ExtractedMemory) (ds : List DedupDecision)
    → has_memory id ms ≡ true
    → (is_decided id ds || is_decided id (missing ms ds)) ≡ true
unfolding missing is_decided stored
is_decided-missing id [] ds h = ground (arith, h)
is_decided-missing id (m ∷ ms) ds h =
    ground (arith, h, is_decided-missing id ms ds, eq_iff m.record_id id)

is_decided-fallback :
    (id : String) (ms : List ExtractedMemory)
    → has_memory id ms ≡ true
    → is_decided id (fallback_store_all ms) ≡ true
unfolding fallback_store_all is_decided stored
is_decided-fallback id [] h = ground (arith, h)
is_decided-fallback id (m ∷ ms) h = ground (arith, h, is_decided-fallback id ms)

missing-IsStored :
    (id : String) (ms : List ExtractedMemory) (ds : List DedupDecision)
    → IsStored id (missing ms ds)
unfolding missing stored
missing-IsStored id [] ds = tt
missing-IsStored id (m ∷ ms) ds =
    if_elim (IsStored id) (is_decided m.record_id ds) (missing ms ds)
      (stored m.record_id ∷ missing ms ds) (λ _. missing-IsStored id ms ds)
      (λ _. (inr refl, missing-IsStored id ms ds))

fallback-IsStored : (id : String) (ms : List ExtractedMemory) → IsStored id (fallback_store_all ms)
unfolding fallback_store_all stored
fallback-IsStored id [] = tt
fallback-IsStored id (m ∷ ms) = (inr refl, fallback-IsStored id ms)

append-IsStored :
    (id : String) (xs ys : List DedupDecision)
    → is_decided id xs ≡ false
    → IsStored id ys
    → IsStored id (xs ++ ys)
unfolding is_decided
append-IsStored id [] ys h s = s
append-IsStored id (x ∷ xs) ys h s =
    (inl (ground (arith, h)), append-IsStored id xs ys (ground (arith, h)) s)

answer-decided :
    (a : Answer) (ms : List ExtractedMemory) (id : String)
    → has_memory id ms ≡ true
    → (is_decided id (parse_answer a ms) ≡ true)
      × (mentions a id ≡ false → IsStored id (parse_answer a ms))
unfolding parse_answer mentions
answer-decided unreadable ms id h = (is_decided-fallback id ms h, λ _. fallback-IsStored id ms)
answer-decided (entries items) ms id h =
    let ds = decisions_of items in
    (
      is_decided-append id ds (missing ms ds) ∙ is_decided-missing id ms ds h,
      (λ unmentioned.
          append-IsStored id ds (missing ms ds) unmentioned (missing-IsStored id ms ds)),
    )

-- Whatever the language model answers, each memory has a decision in the result of
-- parseBatchResult, and a memory that the answer has no entry for is stored by every decision on
-- it.
pub parse_batch_result-decided :
    (read : String → Answer) (raw : String) (ms : List ExtractedMemory) (id : String)
    → has_memory id ms ≡ true
    → (is_decided id (parse_batch_result read raw ms) ≡ true)
      × (mentions (read raw) id ≡ false → IsStored id (parse_batch_result read raw ms))
unfolding parse_batch_result
parse_batch_result-decided read raw ms id h = answer-decided (read raw) ms id h
