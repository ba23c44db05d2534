-- ===== src/FastPath/Calls.antt =====
-- The tool calls that src/offload_server/compact/fast-path.ts leaves in a message.
use chris_tencent_db_agent_m.Prelude.{
  ◌≡◌, inl, inr, refl, subst, String, Bool, true, false, ◌&&◌, ◌||◌, not, Option, none, some, List,
  [], ◌∷◌, ◌++◌, eq_iff, arith, if_elim, if_then, if_else, Bool-cases,
}
use chris_tencent_db_agent_m.FastPath.Messages.{
  Message, Block, Content, absent, text, blocks, has, is_set, is_string, is_user, is_wrapped,
  content_of, put_content, role_of, extract_tool_result_id, is_assistant,
  is_assistant_with_tool_use, use_ids_in, or_else_role,
}
use chris_tencent_db_agent_m.FastPath.{
  result_ids_in, without_uses, without_results, is_array, nonempty, message_result_ids, strip_uses,
  strip_results, drop_empty, tidy_at, tidy_message,
}

pub has-append : (xs ys : List String) (x : String) → has (xs ++ ys) x ≡ (has xs x || has ys x)
unfolding has
has-append [] ys x = refl
has-append (y ∷ xs) ys x = ground (arith, has-append xs ys x)

has-without_uses :
    (gone : String → Bool) (bs : List Block) (x : String)
    → is_set x ≡ true
    → has (use_ids_in (without_uses gone (blocks bs))) x
      ≡ (has (use_ids_in (blocks bs)) x && not (gone x))
unfolding has use_ids_in without_uses
has-without_uses gone [] x h = refl
has-without_uses gone (b ∷ bs) x h = ground (arith, has-without_uses gone bs x h, eq_iff b.id x)

pub has-without_results :
    (gone : String → Bool) (bs : List Block) (x : String)
    → is_set x ≡ true
    → has (result_ids_in (without_results gone (blocks bs))) x
      ≡ (has (result_ids_in (blocks bs)) x && not (gone x))
unfolding has result_ids_in without_results
has-without_results gone [] x h = refl
has-without_results gone (b ∷ bs) x h =
    ground (arith, has-without_results gone bs x h, eq_iff b.tool_use_id x)

pub user-not_assistant :
    (r : Option String) → is_string r "user" ≡ true → is_string r "assistant" ≡ false
unfolding is_string
user-not_assistant none h = ground (arith, h)
user-not_assistant (some r) h =
    ground (arith, h, eq_iff r "user", eq_iff r "assistant", eq_iff "user" "assistant")

user_role :
    (r other : Option String)
    → is_string r "user" ≡ true
    → is_string (or_else_role r other) "assistant" ≡ false
unfolding or_else_role is_string
user_role none other h = ground (arith, h)
user_role (some r) other h = user-not_assistant (some r) h

pub is_user-is_assistant : (m : Message) → is_user m ≡ true → is_assistant m ≡ false
unfolding is_user is_assistant role_of
is_user-is_assistant m h = user_role m.role _ h

pub role-or_else :
    (r other : Option String)
    → is_string (or_else_role r other) "assistant" ≡ false
    → is_string r "assistant" ≡ false
unfolding or_else_role is_string
role-or_else none other h = refl
role-or_else (some r) other h = h

-- A message is in one of the formats: one of blocks has its results there, and one that is a result
-- itself is no assistant's.
abbrev pub IsPlain : Message → Type 0
IsPlain m =
    (is_user m && is_array m.content ≡ true
      → (is_set m.tool_call_id ≡ false) × (is_set m.tool_use_id ≡ false) × (is_wrapped m ≡ false))
    × (is_user m && is_array m.content ≡ false
        → is_set (extract_tool_result_id m) ≡ true
        → is_string (or_else_role (role_of m) m.type) "assistant" ≡ false)

-- The message has a call of the id, or a result.
abbrev pub calls : String → Message → Bool
calls x m = is_assistant_with_tool_use m && has (use_ids_in (content_of m)) x

abbrev pub answers : String → Message → Bool
answers x m = has (message_result_ids m) x

abbrev pub some_message : (Message → Bool) → List Message → Bool
some_message test [] = false
some_message test (m ∷ ms) = test m || some_message test ms

abbrev pub left : (Message → Bool) → Option Message → Bool
left test none = false
left test (some m) = test m

without-has :
    (gone : String → Bool) (c : Content) (x : String)
    → is_set x ≡ true
    → has (use_ids_in (without_uses gone c)) x ≡ (has (use_ids_in c) x && not (gone x))
unfolding has use_ids_in without_uses
without-has gone absent x h = refl
without-has gone (text t) x h = refl
without-has gone (blocks bs) x h = has-without_uses gone bs x h

content_of-put :
    (gone : String → Bool) (m : Message)
    → content_of (put_content (without_uses gone (content_of m)) m)
      ≡ without_uses gone (content_of m)
unfolding content_of put_content without_uses is_wrapped
content_of-put gone m = ground arith

-- What is left of a message has only calls that it had, and that have a result.
stripped-use :
    (has_result : String → Bool) (m : Message) (x : String)
    → is_set x ≡ true
    → calls x (strip_uses has_result m) ≡ true
    → (has (use_ids_in (content_of m)) x ≡ true) × (has_result x ≡ true)
unfolding strip_uses
stripped-use has_result m x s h = elim (Bool-cases (is_assistant_with_tool_use m)) [
  | inl e ↦
      let gone : String → Bool = λ (y : String). not (has_result y) in
      let stripped : calls x (put_content (without_uses gone (content_of m)) m) ≡ true =
        subst (λ (n : Message). calls x n ≡ true) (if_then (is_assistant_with_tool_use m) _ m e)
          h in
      let there : has (use_ids_in (without_uses gone (content_of m))) x ≡ true =
        subst (λ (c : Content). has (use_ids_in c) x ≡ true) (content_of-put gone m)
          (ground (arith, stripped)) in
      ground (arith, there, without-has gone (content_of m) x s)
  | inr e ↦
      let same : calls x m ≡ true =
        subst (λ (n : Message). calls x n ≡ true) (if_else (is_assistant_with_tool_use m) _ m e)
          h in
      ground (arith, same, e)
]

pub assistant-with : (m : Message) → is_assistant m ≡ false → is_assistant_with_tool_use m ≡ false
unfolding is_assistant_with_tool_use
assistant-with m h = ground (arith, h)

user-calls : (x : String) (m : Message) → is_user m ≡ true → calls x m ≡ false
user-calls x m h = ground (arith, assistant-with m (is_user-is_assistant m h))

calls-nonempty :
    (x : String) (k n : Message)
    → is_user k ≡ true
    → left (calls x) (nonempty k) ≡ true
    → calls x n ≡ true
unfolding nonempty
calls-nonempty x k n u =
    if_elim (λ (o : Option Message). left (calls x) o ≡ true → calls x n ≡ true) _ none (some k)
      (λ _ h. ground (arith, h)) (λ _ h. ground (arith, h, user-calls x k u))

calls-strip_results :
    (has_use : String → Bool) (x : String) (n : Message)
    → left (calls x) (strip_results has_use n) ≡ true
    → calls x n ≡ true
unfolding strip_results
calls-strip_results has_use x n =
    if_elim (λ (o : Option Message). left (calls x) o ≡ true → calls x n ≡ true)
      (is_user n && is_array n.content) _ _ (λ e. calls-nonempty x _ n (ground (arith, e)))
      (λ e.
        if_elim (λ (o : Option Message). left (calls x) o ≡ true → calls x n ≡ true) _ none (some n)
          (λ _ h. ground (arith, h)) (λ _ h. h))

calls-drop_empty :
    (x : String) (n : Message) → left (calls x) (drop_empty n) ≡ true → calls x n ≡ true
unfolding drop_empty
calls-drop_empty x n =
    if_elim (λ (o : Option Message). left (calls x) o ≡ true → calls x n ≡ true) _ none (some n)
      (λ _ h. ground (arith, h)) (λ _ h. h)

calls-tidy_at :
    (x : String) (o : Option Message) → left (calls x) (tidy_at o) ≡ true → left (calls x) o ≡ true
unfolding tidy_at
calls-tidy_at x none h = h
calls-tidy_at x (some n) h = calls-drop_empty x n h

pub tidied-use :
    (has_use has_result : String → Bool) (m : Message) (x : String)
    → is_set x ≡ true
    → left (calls x) (tidy_message has_use has_result m) ≡ true
    → (has (use_ids_in (content_of m)) x ≡ true) × (has_result x ≡ true)
unfolding tidy_message
tidied-use has_use has_result m x s h = stripped-use has_result m x s (
    calls-strip_results has_use x (strip_uses has_result m)
      (calls-tidy_at x (strip_results has_use (strip_uses has_result m)) h))
