-- ===== src/Output/Stream/Chunks.antt =====
-- How the output is cut into chunks does not matter: pushChunk of src/output/claudeStream.ts.
use Prim.Native.Char.{Char, code}
use text.Mathlib.TextLemmas.{cons-append, nil-append, append_assoc, append-nil}
use status_pipe.Base.{
  String, ◌≡◌, refl, sym, ap, ◌∙◌, List, [], ◌∷◌, ◌++◌, ◌^^◌, false, Bool-cases, eqb, inl, inr,
}
use status_pipe.Protocol.Json.{Engine}
use status_pipe.Output.Stream.{
  AgentActivity, ActivityReducer, new_reducer, cut_lines, longer, apply_lines, push_chunk,
}

-- The lines of two texts, the second cut after what the first holds back.
abbrev then_cut : List String × String → String → List String × String
then_cut a t = let b = cut_lines (a.1 ^^ t) in (a.0 ++ b.0, b.1)

longer-then_cut :
    (c : Char) (ls : List String) (rest t : String)
    → eqb (code c) 10 ≡ false
    → then_cut (longer c (ls, rest)) t ≡ longer c (then_cut (ls, rest) t)
unfolding cut_lines
longer-then_cut c [] rest t h = rw (cons-append c rest t, h)
longer-then_cut c (l ∷ ls) rest t h = refl

cut_lines-append : (s t : String) → cut_lines (s ^^ t) ≡ then_cut (cut_lines s) t
unfolding cut_lines
cut_lines-append String.[] t = rw (nil-append t)
cut_lines-append (String.◌∷◌ c s) t =
    let whole = ap cut_lines (cons-append c s t) in
    elim (Bool-cases (eqb (code c) 10)) [
      | inl ends ↦ whole ∙ rw (ends, cut_lines-append s t)
      | inr goes_on ↦
          whole
          ∙ rw (goes_on, cut_lines-append s t)
              (sym (longer-then_cut c (cut_lines s).0 (cut_lines s).1 t goes_on))
    ]

apply_lines-append :
    (js : Engine) (ls ms : List String) (a : AgentActivity)
    → apply_lines js (ls ++ ms) a ≡ apply_lines js ms (apply_lines js ls a)
unfolding apply_lines
apply_lines-append js [] ms a = refl
apply_lines-append js (l ∷ ls) ms a = apply_lines-append js ls ms _

push_chunk-append :
    (js : Engine) (s t : String) (r : ActivityReducer)
    → push_chunk js t (push_chunk js s r) ≡ push_chunk js (s ^^ t) r
unfolding push_chunk
push_chunk-append js s t r =
    let whole : cut_lines (r.buffer ^^ s ^^ t) ≡ then_cut (cut_lines (r.buffer ^^ s)) t =
      ap cut_lines (sym (append_assoc r.buffer s t)) ∙ cut_lines-append (r.buffer ^^ s) t in
    rw (whole, apply_lines-append js (cut_lines (r.buffer ^^ s)).0 _ r.activity)

abbrev pub push_all : Engine → List String → ActivityReducer → ActivityReducer
push_all js [] r = r
push_all js (c ∷ cs) r = push_all js cs (push_chunk js c r)

abbrev pub joined : List String → String
joined [] = ""
joined (c ∷ cs) = c ^^ joined cs

push_all-after :
    (js : Engine) (chunks : List String) (before : String)
    → push_all js chunks (push_chunk js before new_reducer)
      ≡ push_chunk js (before ^^ joined chunks) new_reducer
push_all-after js [] before = rw (append-nil before)
push_all-after js (c ∷ cs) before = rw (push_chunk-append js before c new_reducer) (
    push_all-after js cs (before ^^ c)
    ∙ ap (λ s. push_chunk js s new_reducer) (append_assoc before c (joined cs)))

-- However the output of a run is cut into chunks, the reducer ends as if it had come in one piece: the same activity, and
-- the same incomplete line held back.
pub push_all-joined :
    (js : Engine) (chunks : List String)
    → push_all js chunks new_reducer ≡ push_chunk js (joined chunks) new_reducer
unfolding push_chunk
push_all-joined js chunks =
    push_all-after js chunks "" ∙ ap (λ s. push_chunk js s new_reducer) (nil-append (joined chunks))
