-- ===== src/Compressor/Replaced.antt =====
-- Which messages `mildCompress` of src/offload_server/compact/compressor.ts replaces.
use chris_tencent_db_agent_m.Prelude.{
  ℕ, suc, ◌≤◌, ◌<◌, ◌≡◌, refl, sym, ap, Bool, true, false, ◌&&◌, not, List, [], ◌∷◌, map, ltb, leb,
  arith, if_elim, if◌then◌else◌, length, keep, All,
}
use chris_tencent_db_agent_m.FastPath.Messages.{Message, OffloadEntry}
use chris_tencent_db_agent_m.FastPath.{build_offload_map}
use chris_tencent_db_agent_m.Compressor.Slots.{Env}
use chris_tencent_db_agent_m.Compressor.Mild.{
  Candidate, candidates_from, insert_by_score, sort_by_score, is_shorter, replace_at, MildResult,
  confirm, replace_from, mild_compress,
}

abbrev NoHigher : ℕ → List Candidate → Type 0
NoHigher n = All (λ (c : Candidate). c.entry.score ≤ n)

abbrev IsDescending : List Candidate → Type 0
IsDescending [] = Unit
IsDescending (c ∷ cs) = NoHigher c.entry.score cs × IsDescending cs

insert-NoHigher :
    (n : ℕ) (c : Candidate) (cs : List Candidate)
    → c.entry.score ≤ n
    → NoHigher n cs
    → NoHigher n (insert_by_score c cs)
unfolding insert_by_score
insert-NoHigher n c [] l h = (l, tt)
insert-NoHigher n c (d ∷ ds) l h =
    if_elim (NoHigher n) (leb d.entry.score c.entry.score) (c ∷ d ∷ ds) (d ∷ insert_by_score c ds)
      (λ _. (l, h)) (λ _. (h.0, insert-NoHigher n c ds l h.1))

NoHigher-le : (m n : ℕ) (cs : List Candidate) → m ≤ n → NoHigher m cs → NoHigher n cs
NoHigher-le m n [] l h = tt
NoHigher-le m n (c ∷ cs) l h = (omega (arith, h.0, l), NoHigher-le m n cs l h.1)

insert-IsDescending :
    (c : Candidate) (cs : List Candidate) → IsDescending cs → IsDescending (insert_by_score c cs)
unfolding insert_by_score
insert-IsDescending c [] d = (tt, tt)
insert-IsDescending c (e ∷ es) d =
    if_elim IsDescending (leb e.entry.score c.entry.score) (c ∷ e ∷ es) (e ∷ insert_by_score c es)
      (λ w. (
        (ground (arith, w), NoHigher-le e.entry.score c.entry.score es (ground (arith, w)) d.0),
        d,
      ))
      (λ w.
        (insert-NoHigher e.entry.score c es (ground (arith, w)) d.0, insert-IsDescending c es d.1))

sort-IsDescending : (cs : List Candidate) → IsDescending (sort_by_score cs)
unfolding sort_by_score
sort-IsDescending [] = tt
sort-IsDescending (c ∷ cs) = insert-IsDescending c (sort_by_score cs) (sort-IsDescending cs)

-- A candidate to replace, whatever the others.
unfoldable pub is_replaceable : Env → ℕ → Candidate → Bool
is_replaceable env floor c = not (ltb c.entry.score floor) && is_shorter env c

unfoldable pub chosen : Env → ℕ → List Candidate → List Candidate
unfolding is_replaceable
chosen env floor cs = keep (is_replaceable env floor) cs

unfoldable pub replace_all : List Candidate → List Message → List Message
replace_all [] ms = ms
replace_all (c ∷ cs) ms = replace_all cs (replace_at c.entry c.idx ms)

-- All the chosen are replaced, with no regard to the order of their scores.
unfoldable pub replaced_result : List Candidate → List Message → MildResult
unfolding replace_all
replaced_result cs ms = record {
  messages = replace_all cs ms;
  replaced_count = length cs;
  confirmed_ids = map (λ (c : Candidate). c.tid) cs;
}

none_chosen :
    (env : Env) (floor n : ℕ) (cs : List Candidate)
    → n < floor
    → NoHigher n cs
    → chosen env floor cs ≡ []
unfolding chosen is_replaceable
none_chosen env floor n [] l h = refl
none_chosen env floor n (c ∷ cs) l h = ground (arith, l, h.0, none_chosen env floor n cs l h.1)

choose :
    (low shorter : Bool) (c : Candidate) (cs : List Candidate) (rest : List Message → MildResult)
    (ms : List Message)
    → (low ≡ true → cs ≡ [])
    → ((l : List Message) → rest l ≡ replaced_result cs l)
    → (if low
        then record { messages = ms; replaced_count = 0; confirmed_ids = [] }
        else if shorter
        then confirm c rest ms
        else rest ms)
      ≡ replaced_result (if not low && shorter then c ∷ cs else cs) ms
unfolding replaced_result confirm
choose true shorter c cs rest ms h r =
    ap (λ (l : List Candidate). replaced_result l ms) (sym (h refl))
choose false true c cs rest ms h r =
    ap
      (λ (m : MildResult). record {
        messages = m.messages;
        replaced_count = suc m.replaced_count;
        confirmed_ids = c.tid ∷ m.confirmed_ids;
      })
      (r (replace_at c.entry c.idx ms))
choose false false c cs rest ms h r = r ms

replace_from-chosen :
    (env : Env) (floor : ℕ) (cs : List Candidate) (ms : List Message)
    → IsDescending cs
    → replace_from env floor cs ms ≡ replaced_result (chosen env floor cs) ms
unfolding replace_from chosen is_replaceable replaced_result
replace_from-chosen env floor [] ms d = refl
replace_from-chosen env floor (c ∷ cs) ms d =
    choose (ltb c.entry.score floor) (is_shorter env c) c (chosen env floor cs)
      (replace_from env floor cs) ms
      (λ low. none_chosen env floor c.entry.score cs (ground (arith, low)) d.0)
      (λ l. replace_from-chosen env floor cs l d.1)

-- mildCompress replaces all the candidates whose score is not below the floor and whose summary is
-- shorter than their text, and no others, in the order of their scores: that it stops at the first
-- score below the floor leaves none out.
pub mild_compress-chosen :
    (env : Env) (entries : List OffloadEntry) (scan_end floor : ℕ) (ms : List Message)
    → mild_compress env entries scan_end floor ms
      ≡ replaced_result
          (chosen env floor
            (sort_by_score (candidates_from (build_offload_map entries) 0 scan_end ms)))
          ms
unfolding mild_compress
mild_compress-chosen env entries scan_end floor ms =
    let cs = candidates_from (build_offload_map entries) 0 scan_end ms in
    replace_from-chosen env floor (sort_by_score cs) ms (sort-IsDescending cs)
