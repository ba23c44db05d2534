-- ===== src/FastPath/Plain.antt =====
-- That the first pass of src/offload_server/compact/fast-path.ts leaves each message in its format.
use chris_tencent_db_agent_m.Prelude.{
  ℕ, ◌≡◌, refl, sym, ap, ap₂, ◌∙◌, String, Bool, true, false, ◌&&◌, not, Option, none, some, List,
  [], ◌∷◌, All, arith, if◌then◌else◌, if_elim, length, ltb, is_empty, if_else,
}
use chris_tencent_db_agent_m.Prelude.Maps.{Map}
use chris_tencent_db_agent_m.FastPath.Messages.{
  Message, Content, Inner, OffloadEntry, absent, text, blocks, has, is_set, is_string, is_user,
  is_wrapped, extract_all_tool_use_ids, content_of, put_content, role_of, extract_tool_result_id,
  inner_role, inner_id, set_inner, or_else_role, first_result_in, summarized, summarize_user,
  summarize_at, summarize_inner, summary_content, replace_with_summary, is_only_tool_use_assistant,
  is_assistant_with_tool_use,
}
use chris_tencent_db_agent_m.FastPath.{
  result_ids_in, every_in, is_array, without_uses, without_results, delete_result, replaces_at,
  replace_result, delete_uses, pass_message, put_first, pass_all,
}
use chris_tencent_db_agent_m.FastPath.Calls.{IsPlain}

-- The two messages differ at most in their contents, and are arrays or not alike.
abbrev Same : Message → Message → Type 0
Same m n =
    (m.role ≡ n.role)
    × (m.type ≡ n.type)
    × (m.tool_call_id ≡ n.tool_call_id)
    × (m.tool_use_id ≡ n.tool_use_id)
    × (is_array m.content ≡ is_array n.content)
    × (inner_role m.inner ≡ inner_role n.inner)
    × (inner_id m.inner ≡ inner_id n.inner)

own_of : String → String → Bool → String → String
own_of call_id use_id wrapped inner =
    if is_set call_id
    then call_id
    else if is_set use_id
    then use_id
    else if wrapped && is_set inner
    then inner
    else ""

first_in-other : (c : Content) → is_array c ≡ false → first_result_in c ≡ ""
unfolding first_result_in is_array
first_in-other absent h = refl
first_in-other (text t) h = refl
first_in-other (blocks bs) h = ground (arith, h)

extract-other :
    (m : Message)
    → is_user m && is_array m.content ≡ false
    → extract_tool_result_id m
      ≡ own_of m.tool_call_id m.tool_use_id (is_wrapped m) (inner_id m.inner)
unfolding extract_tool_result_id own_of
extract-other m h = ground (arith, h, first_in-other m.content)

own_of-Same :
    (m n : Message)
    → Same m n
    → is_wrapped n ≡ is_wrapped m
    → own_of n.tool_call_id n.tool_use_id (is_wrapped n) (inner_id n.inner)
      ≡ own_of m.tool_call_id m.tool_use_id (is_wrapped m) (inner_id m.inner)
own_of-Same m n h w = cc

Same-IsPlain : (m n : Message) → Same m n → IsPlain m → IsPlain n
unfolding role_of is_user is_wrapped
Same-IsPlain m n (r, t, c, u, a, ir, ii) p =
    let user : is_user n && is_array n.content ≡ is_user m && is_array m.content =
      ap₂ (λ (x : Option String) (b : Bool). is_string x "user" && b) (sym r) (sym a) in
    let wrapped : is_wrapped n ≡ is_wrapped m =
      ap (λ (x : Option String). is_string x "message") (sym t) in
    (
      (λ e.
          let q = p.0 (sym user ∙ e) in
          (ap is_set (sym c) ∙ q.0, ap is_set (sym u) ∙ q.1, wrapped ∙ q.2)),
      (λ e s.
          let f = sym user ∙ e in
          let id : extract_tool_result_id n ≡ extract_tool_result_id m =
            extract-other n e
            ∙ own_of-Same m n (r, t, c, u, a, ir, ii) wrapped
            ∙ sym (extract-other m f) in
          ap₂ (λ (x : Option String) (y : Option String). is_string (or_else_role x y) "assistant")
            (sym (ap₂ or_else_role r ir)) (sym t)
          ∙ p.1 f (ap is_set (sym id) ∙ s)),
    )

array-without_uses :
    (gone : String → Bool) (c : Content) → is_array c ≡ is_array (without_uses gone c)
unfolding without_uses is_array
array-without_uses gone absent = refl
array-without_uses gone (text t) = refl
array-without_uses gone (blocks bs) = refl

array-without_results :
    (gone : String → Bool) (c : Content) → is_array c ≡ is_array (without_results gone c)
unfolding without_results is_array
array-without_results gone absent = refl
array-without_results gone (text t) = refl
array-without_results gone (blocks bs) = refl

array-summarized : (s : String) (c : Content) → is_array c ≡ is_array (summarized s c)
unfolding summarized is_array
array-summarized s absent = refl
array-summarized s (text t) = refl
array-summarized s (blocks bs) = refl

array-summarize_user : (s : String) (c : Content) → is_array c ≡ is_array (summarize_user s c)
unfolding summarize_user is_array
array-summarize_user s absent = refl
array-summarize_user s (text t) = refl
array-summarize_user s (blocks bs) = refl

Same-content :
    (m : Message) (c : Content)
    → is_array m.content ≡ is_array c
    → Same m (record m { content = c })
Same-content m c h = (refl, refl, refl, refl, h, refl, refl)

Same-inner :
    (m : Message) (c : Content) (i : Option Inner)
    → m.inner ≡ i
    → Same m (record m { inner = set_inner c i })
unfolding set_inner inner_role inner_id
Same-inner m c none h = (refl, refl, refl, refl, refl, ap inner_role h, ap inner_id h)
Same-inner m c (some i) h = (refl, refl, refl, refl, refl, ap inner_role h, ap inner_id h)

Same-put :
    (gone : String → Bool) (m : Message) → Same m (put_content (without_uses gone (content_of m)) m)
unfolding put_content content_of
Same-put gone m =
    if_elim (Same m) (is_wrapped m) _ _ (λ _. Same-inner m _ m.inner refl)
      (λ w. Same-content m _ (
        array-without_uses gone m.content
        ∙ ap (λ (c : Content). is_array (without_uses gone c))
            (sym (if_else (is_wrapped m) _ m.content w))))

summarized_content :
    (s : String) (m : Message)
    → Same m (record m {
      content = if is_user m then summarize_user s m.content else summarized s m.content;
      offloaded = true;
    })
summarized_content s m = (
  refl,
  refl,
  refl,
  refl,
  if_elim (λ (c : Content). is_array m.content ≡ is_array c) (is_user m) _ _
      (λ _. array-summarize_user s m.content) (λ _. array-summarized s m.content),
  refl,
  refl,
)

Same-summarize :
    (i : Option Inner) (w : Bool) (s : String) (m : Message)
    → m.inner ≡ i
    → Same m (record (summarize_at i w s m) { offloaded = true })
unfolding summarize_at summarize_inner inner_role inner_id
Same-summarize (some i) true s m h = (refl, refl, refl, refl, refl, ap inner_role h, ap inner_id h)
Same-summarize none w s m h = summarized_content s m
Same-summarize (some i) false s m h = summarized_content s m

-- What is left of a message, if anything is.
data IsPlainLeft : Option Message → Type 0 where
  gone : IsPlainLeft none
  stays : (m : Message) → IsPlain m → IsPlainLeft (some m)

either-left :
    (b : Bool) (x y : Option Message)
    → IsPlainLeft x
    → IsPlainLeft y
    → IsPlainLeft (if b then x else y)
either-left true x y p q = p
either-left false x y p q = q

delete_result-IsPlain :
    (deleted : List String) (m : Message) → IsPlain m → IsPlainLeft (delete_result deleted m)
unfolding delete_result
delete_result-IsPlain deleted m p =
    let ids = result_ids_in m.content in
    let n : Message = record m { content = without_results (has deleted) m.content } in
    either-left (is_user m && ltb 1 (length ids)) (if every_in deleted ids then none else some n)
      none
      (either-left (every_in deleted ids) none (some n) gone (
        stays n (
          Same-IsPlain m n
            (Same-content m n.content (array-without_results (has deleted) m.content)) p)))
      gone

replaces_at-IsPlain :
    (o : Option OffloadEntry) (b : Bool) (m : Message) → IsPlain m → IsPlain (replaces_at o b m).0
unfolding replaces_at replace_with_summary
replaces_at-IsPlain (some e) true m p =
    Same-IsPlain m _ (Same-summarize m.inner (is_wrapped m) (summary_content e) m refl) p
replaces_at-IsPlain none b m p = p
replaces_at-IsPlain (some e) false m p = p

delete_uses-IsPlain :
    (deleted : List String) (m : Message) → IsPlain m → IsPlainLeft (delete_uses deleted m)
unfolding delete_uses
delete_uses-IsPlain deleted m p =
    let ids = extract_all_tool_use_ids m in
    let all_gone = not (is_empty ids) && every_in deleted ids in
    let n : Message = put_content (without_uses (has deleted) (content_of m)) m in
    either-left (is_only_tool_use_assistant m) (if all_gone then none else some m)
      (if is_assistant_with_tool_use m then some n else some m)
      (either-left all_gone none (some m) gone (stays m p))
      (either-left (is_assistant_with_tool_use m) (some n) (some m)
        (stays n (Same-IsPlain m n (Same-put (has deleted) m) p)) (stays m p))

replace_result-IsPlain :
    (confirmed : List String) (entries : Map OffloadEntry) (tid : String) (m : Message)
    → IsPlain m
    → IsPlain (replace_result confirmed entries tid m).0
unfolding replace_result
replace_result-IsPlain confirmed entries tid m p = replaces_at-IsPlain _ _ m p

pair-left :
    (b : Bool) (x y : Option Message) (n : ℕ)
    → IsPlainLeft x
    → IsPlainLeft y
    → let r : Option Message × ℕ = if b then (x, 0) else (y, n) in IsPlainLeft r.0
pair-left true x y n p q = p
pair-left false x y n p q = q

pass_message-IsPlain :
    (confirmed deleted : List String) (entries : Map OffloadEntry) (m : Message)
    → IsPlain m
    → IsPlainLeft (pass_message confirmed deleted entries m).0
unfolding pass_message
pass_message-IsPlain confirmed deleted entries m p =
    let tid = extract_tool_result_id m in
    let r = replace_result confirmed entries tid m in
    let q = replace_result-IsPlain confirmed entries tid m p in
    pair-left (is_set tid && has deleted tid) (delete_result deleted m)
      (if is_set tid then some r.0 else delete_uses deleted r.0) r.1
      (delete_result-IsPlain deleted m p)
      (either-left (is_set tid) (some r.0) (delete_uses deleted r.0) (stays r.0 q)
        (delete_uses-IsPlain deleted r.0 q))

put_first-IsPlain :
    (o : Option Message) (r : List Message × ℕ × ℕ)
    → IsPlainLeft o
    → All IsPlain r.0
    → All IsPlain (put_first o r).0
unfolding put_first
put_first-IsPlain none r gone q = q
put_first-IsPlain (some m) r (stays _ p) q = (p, q)

pub pass_all-IsPlain :
    (confirmed deleted : List String) (entries : Map OffloadEntry) (ms : List Message)
    → All IsPlain ms
    → All IsPlain (pass_all confirmed deleted entries ms).0
unfolding pass_all
pass_all-IsPlain confirmed deleted entries [] p = tt
pass_all-IsPlain confirmed deleted entries (m ∷ ms) p =
    put_first-IsPlain (pass_message confirmed deleted entries m).0
      (pass_all confirmed deleted entries ms) (pass_message-IsPlain confirmed deleted entries m p.0)
      (pass_all-IsPlain confirmed deleted entries ms p.1)
