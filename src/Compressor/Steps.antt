-- ===== src/Compressor/Steps.antt =====
-- How a step of `ensureToolPairIntegrity` of src/offload_server/compact/compressor.ts changes the
-- marks.
use chris_tencent_db_agent_m.Prelude.{
  ℕ, zero, suc, ◌≤◌, ◌<◌, ◌≡◌, refl, sym, ◌∙◌, ap, Bool, true, false, List, [], ◌∷◌, arith, length,
}
use chris_tencent_db_agent_m.Compressor.Marks.{is_marked, mark, unmarked}
use chris_tencent_db_agent_m.Compressor.Pairs.{Round, mark_if}

unmarked-mark :
    (i : ℕ) (marks : List Bool)
    → i < length marks
    → is_marked marks i ≡ false
    → suc (unmarked (mark i marks)) ≡ unmarked marks
unfolding unmarked mark is_marked
unmarked-mark i [] l e = ground (arith, l)
unmarked-mark zero (b ∷ marks) l e = ground (arith, e)
unmarked-mark (suc i) (b ∷ marks) l e = ground (arith, unmarked-mark i marks, l, e)

length-mark : (i : ℕ) (marks : List Bool) → length (mark i marks) ≡ length marks
unfolding mark
length-mark i [] = refl
length-mark zero (b ∷ marks) = refl
length-mark (suc i) (b ∷ marks) = ap suc (length-mark i marks)

pub is_marked-mark_mono :
    (i j : ℕ) (marks : List Bool) → is_marked marks j ≡ true → is_marked (mark i marks) j ≡ true
unfolding mark is_marked
is_marked-mark_mono i j [] e = e
is_marked-mark_mono zero zero (b ∷ marks) e = refl
is_marked-mark_mono zero (suc j) (b ∷ marks) e = e
is_marked-mark_mono (suc i) zero (b ∷ marks) e = e
is_marked-mark_mono (suc i) (suc j) (b ∷ marks) e = is_marked-mark_mono i j marks e

-- How a step changes the marks: it says so where it adds some, and never takes one back.
pub record IsStep (n : ℕ) (st st' : Round) : Type 0 where
  pub same : st'.changed ≡ false → st' ≡ st
  pub size : length st'.marks ≡ n
  pub fewer : unmarked st'.marks ≤ unmarked st.marks
  pub strict : st.changed ≡ false → st'.changed ≡ true → unmarked st'.marks < unmarked st.marks
  pub mono : (j : ℕ) → is_marked st.marks j ≡ true → is_marked st'.marks j ≡ true

pub id-IsStep : (n : ℕ) (st : Round) → length st.marks ≡ n → IsStep n st st
id-IsStep n st l = record {
  same = λ _. refl;
  size = l;
  fewer = omega arith;
  strict = λ p q. cc;
  mono = λ j e. e;
}

strict_trans :
    (n : ℕ) (a b c : Round) (changed : Bool)
    → b.changed ≡ changed
    → IsStep n a b
    → IsStep n b c
    → a.changed ≡ false
    → c.changed ≡ true
    → unmarked c.marks < unmarked a.marks
strict_trans n a b c true w p q e f = omega (arith, p.strict e w, q.fewer)
strict_trans n a b c false w p q e f = omega (arith, p.fewer, q.strict w f)

pub then-IsStep : (n : ℕ) (a b c : Round) → IsStep n a b → IsStep n b c → IsStep n a c
then-IsStep n a b c p q = record {
  same = λ e. q.same e ∙ p.same (ap (λ (r : Round). r.changed) (sym (q.same e)) ∙ e);
  size = q.size;
  fewer = omega (arith, p.fewer, q.fewer);
  strict = λ e f. strict_trans n a b c b.changed refl p q e f;
  mono = λ j e. q.mono j (p.mono j e);
}

pub mark_if-IsStep :
    (n : ℕ) (c : Bool) (i : ℕ) (st : Round)
    → length st.marks ≡ n
    → i < n
    → (c ≡ true → is_marked st.marks i ≡ false)
    → IsStep n st (mark_if c i st)
unfolding mark_if
mark_if-IsStep n false i st l b h = id-IsStep n st l
mark_if-IsStep n true i st l b h = record {
  same = λ e. cc;
  size = length-mark i st.marks ∙ l;
  fewer = omega (arith, unmarked-mark i st.marks (omega (arith, b, l)) (h refl));
  strict = λ _ _. omega (arith, unmarked-mark i st.marks (omega (arith, b, l)) (h refl));
  mono = λ j e. is_marked-mark_mono i j st.marks e;
}

pub mark_if-quiet :
    (c : Bool) (i : ℕ) (st : Round)
    → (mark_if c i st).changed ≡ false
    → (c ≡ false) × (mark_if c i st ≡ st)
unfolding mark_if
mark_if-quiet true i st e = cc
mark_if-quiet false i st e = (refl, refl)
