-- ===== src/Dedup/Writing/Kept.antt =====
-- What is written of a memory that the answer of the model forgets.
use mathlib.Core.List.{Memᴰ}
use mathlib.Core.List.Memᴰ.{head, tail}
use chris_tencent_db_agent_m.Prelude.{
  ◌≡◌, ◌⊎◌, inl, inr, Bool, refl, sym, ap, ◌∙◌, subst, String, true, false, Option, none, some,
  List, [], ◌∷◌, ◌++◌, or_else, str_eq, eq_iff, arith, if◌then◌else◌, if_elim,
}
use chris_tencent_db_agent_m.Prelude.Maps
use chris_tencent_db_agent_m.Prelude.Maps.{Map, get-set}
use chris_tencent_db_agent_m.Dedup.{
  Action, store, DedupDecision, Answer, ExtractedMemory, stored, parse_batch_result,
}
use chris_tencent_db_agent_m.Dedup.Decided.{
  mentions, IsStored, has_memory, parse_batch_result-decided,
}
use chris_tencent_db_agent_m.Dedup.Writing.{
  MemoryRecord, StoreCall, appends, upserts, Batch, plain_record, saves, write_at, write_memory,
  decision_map, add_record, write_all, apply_decisions,
}

-- The decision on an id stores it.
IsStore : String → Option DedupDecision → Type 0
IsStore id none = Unit
IsStore id (some d) = (d.record_id ≡ id) × (d.action ≡ store)

chosen :
    (id : String) (d : DedupDecision) (o : Option DedupDecision)
    → (str_eq d.record_id id ≡ false) ⊎ (d.action ≡ store)
    → IsStore id o
    → IsStore id (if str_eq d.record_id id then some d else o)
unfolding IsStore
chosen id d o s p =
    if_elim (IsStore id) (str_eq d.record_id id) (some d) o
      (λ e. (ground (arith, e, eq_iff d.record_id id), ground (arith, s, e))) (λ _. p)

decision_map-IsStore :
    (id : String) (ds : List DedupDecision) (acc : Map DedupDecision)
    → IsStored id ds
    → IsStore id (Maps.get acc id)
    → IsStore id (Maps.get (decision_map ds acc) id)
unfolding decision_map IsStore
decision_map-IsStore id [] acc s p = p
decision_map-IsStore id (d ∷ ds) acc s p =
    decision_map-IsStore id ds (Maps.set acc d.record_id d) s.1 (
      subst (IsStore id) (sym (get-set acc d.record_id id d)) (chosen id d (Maps.get acc id) s.0 p))

-- What is decided on the id, where the default is a store.
decided-store :
    (id : String) (o : Option DedupDecision)
    → IsStore id o
    → let d = or_else o (stored id) in (d.record_id ≡ id) × (d.action ≡ store)
unfolding IsStore stored
decided-store id none p = (refl, refl)
decided-store id (some d) p = p

write-store :
    (b : Batch) (d : DedupDecision) (m : ExtractedMemory)
    → d.action ≡ store
    → write_memory b d m
      ≡ (some (plain_record b d.record_id m), saves b (plain_record b d.record_id m))
unfolding write_memory
write-store b d m e = ap (λ (a : Action). write_at a b d m) e

-- The memory's plain record is among those stored, its line is written, and the vector store, if
-- there is one, takes it.
abbrev IsWritten : Batch → ExtractedMemory → List MemoryRecord × List StoreCall → Type 0
IsWritten b m r =
    Memᴰ (plain_record b m.record_id m) r.0
    × Memᴰ (appends (plain_record b m.record_id m)) r.1
    × (Memᴰ (upserts (plain_record b m.record_id m)) r.1 ⊎ (b.has_vector_store ≡ false))

Upserted-saves :
    (b : Batch) (r : MemoryRecord) (calls : List StoreCall)
    → Memᴰ (upserts r) (saves b r ++ calls) ⊎ (b.has_vector_store ≡ false)
unfolding saves
Upserted-saves b r calls = upserted b.has_vector_store
  where
    upserted :
        (has : Bool)
        → Memᴰ (upserts r) ((appends r ∷ (if has then upserts r ∷ [] else [])) ++ calls)
          ⊎ (has ≡ false)
    upserted true = inl (tail (head refl))
    upserted false = inr refl

Mem-append_right {ℓ} : {A : Type ℓ} (a : A) (xs ys : List A) → Memᴰ a ys → Memᴰ a (xs ++ ys)
Mem-append_right a [] ys h = h
Mem-append_right a (x ∷ xs) ys h = tail (Mem-append_right a xs ys h)

Mem-add_record :
    (r : MemoryRecord) (o : Option MemoryRecord) (rs : List MemoryRecord)
    → Memᴰ r rs
    → Memᴰ r (add_record o rs)
unfolding add_record
Mem-add_record r none rs h = h
Mem-add_record r (some x) rs h = tail h

-- One memory's writing, before that of the others.
first_then :
    Option MemoryRecord × List StoreCall
    → List MemoryRecord × List StoreCall
    → List MemoryRecord × List StoreCall
first_then one others = (add_record one.0 others.0, one.1 ++ others.1)

later-IsWritten :
    (b : Batch) (m : ExtractedMemory) (one : Option MemoryRecord × List StoreCall)
    (others : List MemoryRecord × List StoreCall)
    → IsWritten b m others
    → IsWritten b m (first_then one others)
unfolding first_then
later-IsWritten b m one others (r, c, u) = (
  Mem-add_record _ one.0 others.0 r,
  Mem-append_right _ one.1 others.1 c,
  elim u [ inl h ↦ inl (Mem-append_right _ one.1 others.1 h) | inr e ↦ inr e ],
)

first-IsWritten :
    (b : Batch) (m : ExtractedMemory) (one : Option MemoryRecord × List StoreCall)
    (others : List MemoryRecord × List StoreCall)
    → one ≡ (some (plain_record b m.record_id m), saves b (plain_record b m.record_id m))
    → IsWritten b m (first_then one others)
unfolding first_then add_record saves
first-IsWritten b m one others e =
    subst (λ (o : Option MemoryRecord × List StoreCall). IsWritten b m (first_then o others))
      (sym e) (head refl, head refl, Upserted-saves b (plain_record b m.record_id m) others.1)

write_all-IsWritten :
    (b : Batch) (decided : Map DedupDecision) (ms : List ExtractedMemory) (m : ExtractedMemory)
    → Memᴰ m ms
    → IsStore m.record_id (Maps.get decided m.record_id)
    → IsWritten b m (write_all b decided ms)
unfolding write_all first_then
write_all-IsWritten b decided (x ∷ ms) m (head e) p =
    let d : DedupDecision = or_else (Maps.get decided m.record_id) (stored m.record_id) in
    let s = decided-store m.record_id (Maps.get decided m.record_id) p in
    subst (λ (y : ExtractedMemory). IsWritten b m (write_all b decided (y ∷ ms))) e
      (first-IsWritten b m (write_memory b d m) (write_all b decided ms) (
        write-store b d m s.1
        ∙ ap (λ (id : String). (some (plain_record b id m), saves b (plain_record b id m))) s.0))
write_all-IsWritten b decided (x ∷ ms) m (tail h) p =
    later-IsWritten b m
      (write_memory b (or_else (Maps.get decided x.record_id) (stored x.record_id)) x)
      (write_all b decided ms) (write_all-IsWritten b decided ms m h p)
write_all-IsWritten b decided [] m h p = elim h [ ]

Mem-has_memory :
    (m : ExtractedMemory) (ms : List ExtractedMemory) → Memᴰ m ms → has_memory m.record_id ms ≡ true
Mem-has_memory m (x ∷ ms) (head e) =
    ground (arith, eq_iff x.record_id m.record_id, ap (λ (y : ExtractedMemory). y.record_id) e)
Mem-has_memory m (x ∷ ms) (tail h) = ground (arith, Mem-has_memory m ms h)
Mem-has_memory m [] h = elim h [ ]

-- A record with the memory's content, type and priority is among those stored, its line is written,
-- and the vector store, if there is one, takes it.
abbrev pub IsKept : Batch → ExtractedMemory → List MemoryRecord × List StoreCall → Type 0
IsKept b m res =
    (r : MemoryRecord) × (r.content ≡ m.content)
    × (r.memory_type ≡ m.memory_type)
    × (r.priority ≡ m.priority)
    × Memᴰ r res.0
    × Memᴰ (appends r) res.1
    × (Memᴰ (upserts r) res.1 ⊎ (b.has_vector_store ≡ false))

written-IsKept :
    (b : Batch) (m : ExtractedMemory) (res : List MemoryRecord × List StoreCall)
    → IsWritten b m res
    → IsKept b m res
unfolding plain_record
written-IsKept b m res w = (plain_record b m.record_id m, refl, refl, refl, w.0, w.1, w.2)

-- Where the answer of the language model has no entry for a memory of the batch, applying the
-- decisions read from the answer returns a record with that memory's content, type and priority,
-- writes the record's line, and upserts the record if there is a vector store. What the other
-- decisions of the answer delete is not considered.
pub forgotten-IsKept :
    (read : String → Answer) (raw : String) (ms : List ExtractedMemory) (b : Batch)
    (m : ExtractedMemory)
    → Memᴰ m ms
    → mentions (read raw) m.record_id ≡ false
    → IsKept b m (apply_decisions b (parse_batch_result read raw ms) ms)
unfolding apply_decisions Maps.get IsStore
forgotten-IsKept read raw ms b m h unmentioned =
    let ds = parse_batch_result read raw ms in
    let decided = parse_batch_result-decided read raw ms m.record_id (Mem-has_memory m ms h) in
    written-IsKept b m (apply_decisions b ds ms) (
      write_all-IsWritten b (decision_map ds []) ms m h
        (decision_map-IsStore m.record_id ds [] (decided.1 unmentioned) tt))
