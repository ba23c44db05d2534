-- ===== src/Compressor/Batch.antt =====
-- The deletion by index in src/offload_server/compact/compressor.ts, against one that takes out the
-- marked messages at once.
use chris_tencent_db_agent_m.Prelude.{
  ℕ, suc, ◌+◌, ◌≡◌, refl, sym, ◌∙◌, ap, ap₂, Bool, true, false, List, [], ◌∷◌, ◌++◌, map, String,
  arith, if◌then◌else◌,
}
use mathlib.Core.List.{append-nil, append_assoc}
use chris_tencent_db_agent_m.Compressor.Slots.{Slot, sum_tokens}
use chris_tencent_db_agent_m.Compressor.Truncate.{tokens_at}
use chris_tencent_db_agent_m.Compressor.Deletion.{
  id_list, indices_from, remove_at, ids_at, Deleted, delete_at, delete_each, delete_marked,
}

-- The slots without, and with, a mark; one beyond the marks has none.
unfoldable pub unmarked_slots : List Slot → List Bool → List Slot
unmarked_slots [] bs = []
unmarked_slots (s ∷ ss) [] = s ∷ ss
unmarked_slots (s ∷ ss) (b ∷ bs) = let rest = unmarked_slots ss bs in if b then rest else s ∷ rest

unfoldable pub marked_slots : List Slot → List Bool → List Slot
marked_slots [] bs = []
marked_slots (s ∷ ss) [] = []
marked_slots (s ∷ ss) (b ∷ bs) = let rest = marked_slots ss bs in if b then s ∷ rest else rest

-- The ids of results, those of the last slot first.
unfoldable pub ids_backwards : List Slot → List String
unfolding id_list
ids_backwards [] = []
ids_backwards (s ∷ ss) = ids_backwards ss ++ id_list s.message

delete_each-append :
    (xs ys : List ℕ) (d : Deleted) → delete_each (xs ++ ys) d ≡ delete_each ys (delete_each xs d)
unfolding delete_each
delete_each-append [] ys d = refl
delete_each-append (x ∷ xs) ys d = delete_each-append xs ys (delete_at x d)

map_append : (f : ℕ → ℕ) (xs ys : List ℕ) → map f (xs ++ ys) ≡ map f xs ++ map f ys
map_append f [] ys = refl
map_append f (x ∷ xs) ys = ap (λ (l : List ℕ). f x ∷ l) (map_append f xs ys)

one-suc : (b : Bool) (i : ℕ) → (if b then suc i ∷ [] else []) ≡ map suc (if b then i ∷ [] else [])
one-suc true i = refl
one-suc false i = refl

indices_from-suc : (i : ℕ) (bs : List Bool) → indices_from (suc i) bs ≡ map suc (indices_from i bs)
unfolding indices_from
indices_from-suc i [] = refl
indices_from-suc i (b ∷ bs) =
    ap₂ (λ (x y : List ℕ). x ++ y) (indices_from-suc (suc i) bs) (one-suc b i)
    ∙ sym (map_append suc (indices_from (suc i) bs) (if b then i ∷ [] else []))

-- A slot in front of those that the indices are of.
abbrev behind_slot : Slot → Deleted → Deleted
behind_slot s d = record d { slots = s ∷ d.slots }

delete_each-behind :
    (s : Slot) (is : List ℕ) (d : Deleted)
    → delete_each (map suc is) (behind_slot s d) ≡ behind_slot s (delete_each is d)
unfolding delete_each delete_at remove_at ids_at tokens_at
delete_each-behind s [] d = refl
delete_each-behind s (i ∷ is) d = delete_each-behind s is (delete_at i d)

-- The marked slots go at once.
unfoldable pub deleted_at_once : List Slot → List Bool → Deleted → Deleted
unfolding unmarked_slots marked_slots ids_backwards sum_tokens
deleted_at_once ss bs d = record {
  slots = unmarked_slots ss bs;
  ids = d.ids ++ ids_backwards (marked_slots ss bs);
  freed = d.freed + sum_tokens (marked_slots ss bs);
}

deleted-ext :
    (ss : List Slot) {xs ys : List String} {m n : ℕ}
    → xs ≡ ys
    → m ≡ n
    → ◌≡◌ {A = Deleted}
        (record { slots = ss; ids = xs; freed = m })
        (record { slots = ss; ids = ys; freed = n })
deleted-ext ss p q =
    ap₂ (λ (x : List String) (k : ℕ). record { slots = ss; ids = x; freed = k }) p q

delete_none :
    (is : List ℕ) (ids : List String) (n : ℕ)
    → delete_each is (record { slots = []; ids = ids; freed = n })
      ≡ record { slots = []; ids = ids; freed = n }
unfolding delete_each delete_at remove_at ids_at tokens_at
delete_none [] ids n = refl
delete_none (i ∷ is) ids n =
    ap₂ (λ (x : List String) (k : ℕ). delete_each is (record { slots = []; ids = x; freed = k }))
      (append-nil ids) (omega arith)
    ∙ delete_none is ids n

last_one :
    (b : Bool) (s : Slot) (ss : List Slot) (bs : List Bool) (d : Deleted)
    → delete_each (if b then 0 ∷ [] else []) (behind_slot s (deleted_at_once ss bs d))
      ≡ deleted_at_once (s ∷ ss) (b ∷ bs) d
unfolding delete_each delete_at remove_at ids_at tokens_at deleted_at_once
last_one true s ss bs d =
    deleted-ext (unmarked_slots ss bs)
      (append_assoc d.ids (ids_backwards (marked_slots ss bs)) (id_list s.message)) (omega arith)
last_one false s ss bs d = refl

delete_each-at_once :
    (ss : List Slot) (bs : List Bool) (ids : List String) (n : ℕ)
    → delete_each (indices_from 0 bs) (record { slots = ss; ids = ids; freed = n })
      ≡ deleted_at_once ss bs (record { slots = ss; ids = ids; freed = n })
unfolding indices_from deleted_at_once delete_each
delete_each-at_once [] bs ids n =
    delete_none (indices_from 0 bs) ids n ∙ deleted-ext [] (sym (append-nil ids)) (omega arith)
delete_each-at_once (s ∷ ss) [] ids n = deleted-ext (s ∷ ss) (sym (append-nil ids)) (omega arith)
delete_each-at_once (s ∷ ss) (b ∷ bs) ids n =
    let d : Deleted = record { slots = ss; ids = ids; freed = n } in
    let here = if b then 0 ∷ [] else [] in
    delete_each-append (indices_from 1 bs) here (behind_slot s d)
    ∙ ap (λ (is : List ℕ). delete_each here (delete_each is (behind_slot s d)))
        (indices_from-suc 0 bs)
    ∙ ap (delete_each here) (
        delete_each-behind s (indices_from 0 bs) d
        ∙ ap (behind_slot s) (delete_each-at_once ss bs ids n))
    ∙ last_one b s ss bs d

-- Deleting the marked messages one by one, from the greatest index down, leaves just those without
-- a mark, in their order; the ids are those of the deleted results, the last first, and the tokens
-- freed are the deleted messages'.
pub delete_marked-at_once :
    (ss : List Slot) (marks : List Bool)
    → (delete_marked ss marks).slots ≡ unmarked_slots ss marks
      × (delete_marked ss marks).ids ≡ ids_backwards (marked_slots ss marks)
      × (delete_marked ss marks).freed ≡ sum_tokens (marked_slots ss marks)
unfolding delete_marked deleted_at_once
delete_marked-at_once ss marks =
    let same = delete_each-at_once ss marks [] 0 in
    (
      ap (λ (d : Deleted). d.slots) same,
      ap (λ (d : Deleted). d.ids) same,
      ap (λ (d : Deleted). d.freed) same ∙ omega arith,
    )
