-- ===== src/FastPath/Answers.antt =====
-- The results that src/offload_server/compact/fast-path.ts leaves in a message.
use chris_tencent_db_agent_m.Prelude.{
  ◌≡◌, ◌⊎◌, inl, inr, refl, sym, ap, ◌∙◌, subst, String, Bool, true, false, ◌&&◌, not, Option, none,
  some, List, [], ◌∷◌, ◌++◌, eq_iff, arith, if◌then◌else◌, if_then, if_else, Bool-cases,
}
use chris_tencent_db_agent_m.FastPath.Messages.{
  Message, Block, Content, absent, text, blocks, has, is_set, is_string, is_user, is_wrapped,
  content_of, role_of, extract_tool_result_id, is_assistant, is_assistant_with_tool_use,
  or_else_role,
}
use chris_tencent_db_agent_m.FastPath.Messages.{first_result, first_result_in}
use chris_tencent_db_agent_m.FastPath.Calls.{
  user-not_assistant, has-append, has-without_results, is_user-is_assistant, role-or_else,
  assistant-with, left, answers, IsPlain,
}
use chris_tencent_db_agent_m.FastPath.{
  is_empty_array, result_ids_in, without_results, is_array, nonempty, message_result_ids,
  strip_uses, strip_results, drop_empty, tidy_at, tidy_message,
}

no_id : is_set "" ≡ false
unfolding is_set
no_id = refl

first-has :
    (bs : List Block) (x : String)
    → first_result bs ≡ x
    → is_set x ≡ true
    → has (result_ids_in (blocks bs)) x ≡ true
unfolding first_result has result_ids_in
first-has [] x e s = ground (arith, ap is_set e, no_id, s)
first-has (b ∷ bs) x e s = ground (arith, first-has bs x, e, s, eq_iff b.tool_use_id x)

-- The messages of blocks that are plain: their results are among the blocks.
abbrev IsBare : Message → Type 0
IsBare m = (is_set m.tool_call_id ≡ false) × (is_set m.tool_use_id ≡ false) × (is_wrapped m ≡ false)

bare-id :
    (m : Message) (bs : List Block)
    → m.content ≡ blocks bs
    → IsBare m
    → is_user m ≡ true
    → extract_tool_result_id m ≡ first_result bs
unfolding extract_tool_result_id first_result_in
bare-id m bs c p u = ground (arith, p.0, p.1, p.2, u, ap first_result_in c)

-- What a message of its own id answers.
own-id :
    (ids : List String) (tid x : String)
    → has (ids ++ (if is_set tid then tid ∷ [] else [])) x ≡ true
    → (has ids x ≡ true) ⊎ ((tid ≡ x) × (is_set tid ≡ true))
unfolding has
own-id ids tid x h =
    ground (arith, has-append ids (if is_set tid then tid ∷ [] else []) x, h, eq_iff tid x)

plain-blocks :
    (m : Message) (bs : List Block) (x : String)
    → m.content ≡ blocks bs
    → IsBare m
    → is_user m ≡ true
    → is_set x ≡ true
    → answers x m ≡ true
    → has (result_ids_in (blocks bs)) x ≡ true
unfolding message_result_ids
plain-blocks m bs x c p u s h =
    elim (own-id (if is_user m then result_ids_in m.content else []) (extract_tool_result_id m) x
      h) [
        | inl among ↦
            subst (λ (d : Content). has (result_ids_in d) x ≡ true) c
              (subst (λ (ids : List String). has ids x ≡ true) (if_then (is_user m) _ [] u) among)
        | inr (e, _) ↦ first-has bs x (sym (bare-id m bs c p u) ∙ e) s
      ]

left-drop_empty :
    (test : Message → Bool) (n : Message)
    → is_string (or_else_role (role_of n) n.type) "assistant" && is_empty_array (content_of n)
      ≡ false
    → test n ≡ true
    → left test (drop_empty n) ≡ true
unfolding drop_empty
left-drop_empty test n d h =
    subst (λ (o : Option Message). left test o ≡ true) (sym (if_else _ none (some n) d)) h

-- A block that stays keeps the content from being empty.
has-not_empty :
    (c : Content) (x : String) → has (result_ids_in c) x ≡ true → is_empty_array c ≡ false
unfolding has result_ids_in is_empty_array
has-not_empty absent x h = refl
has-not_empty (text t) x h = refl
has-not_empty (blocks []) x h = ground (arith, h)
has-not_empty (blocks (b ∷ bs)) x h = refl

user_roles :
    (r inner other : Option String)
    → is_string r "user" ≡ true
    → is_string (or_else_role (or_else_role r inner) other) "assistant" ≡ false
unfolding or_else_role is_string
user_roles none inner other h = ground (arith, h)
user_roles (some r) inner other h = user-not_assistant (some r) h

user_type :
    (m : Message)
    → is_user m ≡ true
    → is_string (or_else_role (role_of m) m.type) "assistant" ≡ false
unfolding role_of is_user
user_type m u = user_roles m.role _ m.type u

-- What is left of a message of blocks.
left-blocks :
    (has_use : String → Bool) (m : Message) (bs : List Block) (x : String)
    → is_user m ≡ true
    → is_set x ≡ true
    → has_use x ≡ true
    → has (result_ids_in (blocks bs)) x ≡ true
    → left (answers x) (
        tidy_at
          (nonempty (record m { content = without_results (λ y. not (has_use y)) (blocks bs) })))
      ≡ true
unfolding nonempty tidy_at message_result_ids is_user
left-blocks has_use m bs x u s used h =
    let c = without_results (λ y. not (has_use y)) (blocks bs) in
    let k : Message = record m { content = c } in
    let kept : has (result_ids_in c) x ≡ true =
      ground (arith, has-without_results (λ y. not (has_use y)) bs x s, h, used) in
    let stays : nonempty k ≡ some k =
      if_else (is_empty_array c) none (some k) (has-not_empty c x kept) in
    subst (λ (o : Option Message). left (answers x) (tidy_at o) ≡ true) (sym stays)
      (left-drop_empty (answers x) k (ground (arith, user_type k u)) (
        ground (
          arith,
          has-append (if is_user k then result_ids_in c else [])
              (if is_set (extract_tool_result_id k) then extract_tool_result_id k ∷ [] else []) x,
          kept,
          u,
        )))

strip_uses-other :
    (has_result : String → Bool) (m : Message)
    → is_assistant m ≡ false
    → strip_uses has_result m ≡ m
unfolding strip_uses
strip_uses-other has_result m h = if_else (is_assistant_with_tool_use m) _ m (assistant-with m h)

not_assistant :
    (m : Message)
    → is_string (or_else_role (role_of m) m.type) "assistant" ≡ false
    → is_assistant m ≡ false
unfolding is_assistant
not_assistant m h = role-or_else (role_of m) m.type h

-- A message of blocks with a result that is called.
blocks-answer :
    (has_use : String → Bool) (m : Message) (c : Content) (x : String)
    → m.content ≡ c
    → IsPlain m
    → is_user m ≡ true
    → is_array c ≡ true
    → is_set x ≡ true
    → has_use x ≡ true
    → answers x m ≡ true
    → left (answers x) (tidy_at (strip_results has_use m)) ≡ true
unfolding strip_results is_array
blocks-answer has_use m (blocks bs) x c p u a s used h =
    let both : is_user m && is_array m.content ≡ true = ground (arith, u, ap is_array c) in
    subst (λ (o : Option Message). left (answers x) (tidy_at o) ≡ true)
      (sym (if_then (is_user m && is_array m.content) _ _ both))
      (subst
        (λ (d : Content).
          left (answers x)
            (tidy_at (nonempty (record m { content = without_results (λ y. not (has_use y)) d })))
          ≡ true)
        (sym c) (left-blocks has_use m bs x u s used (plain-blocks m bs x c (p.0 both) u s h)))
blocks-answer has_use m absent x c p u a s used h = ground (arith, a)
blocks-answer has_use m (text t) x c p u a s used h = ground (arith, a)

no_blocks : (c : Content) (x : String) → is_array c ≡ false → has (result_ids_in c) x ≡ false
unfolding is_array result_ids_in has
no_blocks absent x h = refl
no_blocks (text t) x h = refl
no_blocks (blocks bs) x h = ground (arith, h)

other-own :
    (m : Message) (x : String)
    → is_user m && is_array m.content ≡ false
    → answers x m ≡ true
    → (extract_tool_result_id m ≡ x) × (is_set (extract_tool_result_id m) ≡ true)
unfolding message_result_ids has
other-own m x f h =
    elim (own-id (if is_user m then result_ids_in m.content else []) (extract_tool_result_id m) x
      h) [ inl among ↦ ground (arith, among, f, no_blocks m.content x) | inr own ↦ own ]

-- A message that is a result itself.
other-answer :
    (has_use : String → Bool) (m : Message) (x : String)
    → IsPlain m
    → is_user m && is_array m.content ≡ false
    → is_set x ≡ true
    → has_use x ≡ true
    → answers x m ≡ true
    → left (answers x) (tidy_at (strip_results has_use m)) ≡ true
unfolding strip_results tidy_at
other-answer has_use m x p f s used h =
    let (e, set) = other-own m x f h in
    let role = p.1 f set in
    let stays : strip_results has_use m ≡ some m =
      if_else (is_user m && is_array m.content) _ _ f
      ∙ if_else _ none (some m) (ground (arith, ap has_use e, used)) in
    subst (λ (o : Option Message). left (answers x) (tidy_at o) ≡ true) (sym stays)
      (left-drop_empty (answers x) m (ground (arith, role)) h)

pub plain-answer :
    (has_use has_result : String → Bool) (m : Message) (x : String)
    → IsPlain m
    → is_set x ≡ true
    → has_use x ≡ true
    → answers x m ≡ true
    → left (answers x) (tidy_message has_use has_result m) ≡ true
unfolding tidy_message
plain-answer has_use has_result m x p s used h =
    elim (Bool-cases (is_user m && is_array m.content)) [
      | inl e ↦
          subst (λ (n : Message). left (answers x) (tidy_at (strip_results has_use n)) ≡ true)
            (sym (strip_uses-other has_result m (is_user-is_assistant m (ground (arith, e)))))
            (blocks-answer has_use m m.content x refl p (ground (arith, e)) (ground (arith, e)) s
              used h)
      | inr e ↦
          let (_, set) = other-own m x e h in
          subst (λ (n : Message). left (answers x) (tidy_at (strip_results has_use n)) ≡ true)
            (sym (strip_uses-other has_result m (not_assistant m (p.1 e set))))
            (other-answer has_use m x p e s used h)
    ]
