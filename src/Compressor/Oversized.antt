-- ===== src/Compressor/Oversized.antt =====
-- That a truncated text in src/offload_server/compact/compressor.ts is still longer than the limit.
use Prim.Native.String.count as Count
use Prim.Native.String.{◌++◌ as glue, count, ◌∷◌ as cons}
use package.text.Mathlib.TextLemmas.{length-append}
use chris_tencent_db_agent_m.Prelude.{
  ℕ, zero, suc, ◌≤◌, ◌<◌, ◌≡◌, refl, String, Bool, true, false, ◌&&◌, Option, none, some, List, [],
  ◌∷◌, arith, if_elim, subst, is_some,
}
use chris_tencent_db_agent_m.FastPath.Messages.{
  Message, Block, Content, absent, text, blocks, Inner, is_user, is_wrapped, is_tool_result,
  inner_content, inner_role, set_inner, any_block, is_tool_result_message,
}
use chris_tencent_db_agent_m.Compressor.Slots.{
  Env, Slot, shown_content, block_text, join_blocks, content_text, get_text_content, text_length,
  behind, set_first_result, set_user_content, set_text_content, cut, truncation_note,
  truncated_text, shown_at, blocks_or,
}
use chris_tencent_db_agent_m.Compressor.Truncate.{is_oversized, truncate_slot}

count-cut : (n : ℕ) (s : String) → n < count s → count (cut n s) ≡ n
unfolding cut
count-cut zero s h = refl
count-cut (suc n) String.[] h = ground (arith, Count.nil, h)
count-cut (suc n) (cons c s) h =
    ground (arith, Count.cons c s, Count.cons c (cut n s), count-cut n s, h)

-- Text follows the cut.
count-truncated :
    (env : Env) (limit : ℕ) (s : String)
    → limit < count s
    → limit < count (truncated_text env limit s)
unfolding truncated_text truncation_note
count-truncated env limit s h = ground (
  arith,
  length-append (cut limit s) (truncation_note env limit),
  length-append "\n\n[... content truncated, only first "
      (glue (env.digits limit) " characters retained ...]"),
  count-cut limit s h,
)

-- What the first result is set to, if there is any.
abbrev Fits : Env → String → Bool → Option (List Block) → Type 0
Fits env t any none = any ≡ false
Fits env t any (some bs) =
    (any_block is_tool_result (blocks bs) ≡ true) × (count t ≤ count (join_blocks env bs))

behind-Fits :
    (env : Env) (t : String) (b : Block) (any : Bool) (o : Option (List Block))
    → Fits env t any o
    → Fits env t any (behind b o)
unfolding behind any_block join_blocks
behind-Fits env t b any none h = h
behind-Fits env t b any (some bs) h = (
  ground (arith, h.0),
  ground (arith, h.1, length-append (block_text env b) (join_blocks env bs)),
)

set_first_result-Fits :
    (env : Env) (t : String) (bs : List Block)
    → Fits env t (any_block is_tool_result (blocks bs)) (set_first_result t bs)
unfolding set_first_result any_block is_tool_result join_blocks block_text
set_first_result-Fits env t [] = refl
set_first_result-Fits env t (b ∷ bs) =
    if_elim (Fits env t (any_block is_tool_result (blocks (b ∷ bs)))) (is_tool_result b) _ _
      (λ e. (ground (arith, e), ground (arith, e, length-append t (join_blocks env bs))))
      (λ e.
        subst (λ (any : Bool). Fits env t any (behind b (set_first_result t bs)))
          (ground (arith, e))
          (behind-Fits env t b _ (set_first_result t bs) (set_first_result-Fits env t bs)))

abbrev Longer : Env → ℕ → Content → Type 0
Longer env limit c = limit < count (content_text env c)

wrapped-Longer :
    (env : Env) (limit : ℕ) (t : String) (c : Content) (i : Option Inner)
    → limit < count t
    → is_some i ≡ true
    → Longer env limit (shown_at c i)
    → Longer env limit (shown_at c (set_inner (text t) i))
unfolding shown_at inner_content set_inner content_text
wrapped-Longer env limit t absent none h w l = cc
wrapped-Longer env limit t absent (some j) h w l = h
wrapped-Longer env limit t (text s) i h w l = l
wrapped-Longer env limit t (blocks bs) i h w l = l

blocks-Longer :
    (env : Env) (limit : ℕ) (t : String) (any : Bool) (o : Option (List Block)) (i : Option Inner)
    → limit < count t
    → Fits env t any o
    → Longer env limit (shown_at (blocks_or t o) i)
unfolding shown_at blocks_or content_text
blocks-Longer env limit t any none i h f = h
blocks-Longer env limit t any (some bs) i h f = omega (arith, f.1, h)

user-Longer :
    (env : Env) (limit : ℕ) (t : String) (c : Content) (i : Option Inner)
    → limit < count t
    → Longer env limit (shown_at (set_user_content t c) i)
unfolding shown_at set_user_content content_text
user-Longer env limit t absent i h = h
user-Longer env limit t (text s) i h = h
user-Longer env limit t (blocks bs) i h =
    blocks-Longer env limit t _ (set_first_result t bs) i h (set_first_result-Fits env t bs)

set_text_content-Longer :
    (env : Env) (limit : ℕ) (t : String) (m : Message)
    → limit < count t
    → limit < text_length env m
    → limit < text_length env (set_text_content t m)
unfolding text_length get_text_content shown_content set_text_content
set_text_content-Longer env limit t m h l =
    let P : Message → Type 0 = λ n. Longer env limit (shown_at n.content n.inner) in
    if_elim P (is_wrapped m && is_some m.inner) _ _
      (λ w. wrapped-Longer env limit t m.content m.inner h (ground (arith, w)) l)
      (λ _. if_elim P (is_user m) _ _ (λ _. user-Longer env limit t m.content m.inner h) (λ _. h))

blocks-any :
    (env : Env) (t : String) (any : Bool) (o : Option (List Block))
    → Fits env t any o
    → any ≡ true
    → any_block is_tool_result (blocks_or t o) ≡ true
unfolding blocks_or
blocks-any env t any none f e = cc
blocks-any env t any (some bs) f e = f.0

user-any :
    (env : Env) (t : String) (c : Content)
    → any_block is_tool_result c ≡ true
    → any_block is_tool_result (set_user_content t c) ≡ true
unfolding set_user_content any_block
user-any env t absent e = ground (arith, e)
user-any env t (text s) e = ground (arith, e)
user-any env t (blocks bs) e =
    blocks-any env t _ (set_first_result t bs) (set_first_result-Fits env t bs) e

inner_role-set_inner : (c : Content) (i : Option Inner) → inner_role (set_inner c i) ≡ inner_role i
unfolding inner_role set_inner
inner_role-set_inner c none = refl
inner_role-set_inner c (some i) = refl

set_text_content-result :
    (env : Env) (t : String) (m : Message)
    → is_tool_result_message m ≡ true
    → is_tool_result_message (set_text_content t m) ≡ true
unfolding set_text_content is_tool_result_message is_user
set_text_content-result env t m h =
    let P : Message → Type 0 = λ n. is_tool_result_message n ≡ true in
    if_elim P (is_wrapped m && is_some m.inner) _ _
      (λ w. ground (arith, h, inner_role-set_inner (text t) m.inner))
      (λ _.
        if_elim P (is_user m) _ _ (λ u. ground (arith, h, u, user-any env t m.content))
          (λ u. ground (arith, h, u)))

pub truncate_slot-is_oversized :
    (env : Env) (limit : ℕ) (counted : String → Message → ℕ) (s : Slot)
    → is_oversized env limit s ≡ true
    → is_oversized env limit (truncate_slot env limit counted s) ≡ true
unfolding is_oversized truncate_slot
truncate_slot-is_oversized env limit counted s h =
    let cut_text = truncated_text env limit (get_text_content env s.message) in
    ground (
      arith,
      h,
      set_text_content-result env cut_text s.message,
      set_text_content-Longer env limit cut_text s.message,
      count-truncated env limit (get_text_content env s.message),
    )
