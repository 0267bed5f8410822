-- ===== src/Agency/Title/Pairing.antt =====
-- The pairing of title requests with responses: in order, first asked first settled.
use ronna_core.Prelude.{
  ℕ, suc, ◌-◌, ◌≡◌, ◌≢◌, ◌∙◌, ap, List, [], ◌∷◌, ◌++◌, append_assoc, ==_refl, ltb, map, length,
  length-append, All, arith, scan,
}
use mathlib.Core.List.{map-append}
use ronna_core.Block.{Block}
use ronna_core.Agency.Records.{MetadataTitleRequest}
use ronna_core.Agency.Kinds.{from_block}
use ronna_core.Agency.Title.{Turn, request, response, neither, turn_of, settled_loop, settled_in}

-- A row is no request of this id.
abbrev pub IsOther : ℕ → Turn → Type 0
IsOther id (request r) = r ≢ id
IsOther id response = Unit
IsOther id neither = Unit

-- How many requests a row leaves open: a request one more, and a response one fewer, if any.
pub open_step : Turn → ℕ → ℕ
open_step (request r) n = suc n
open_step response n = n - 1
open_step neither n = n

pub responses : List Turn → ℕ
responses [] = 0
responses (response ∷ turns) = suc (responses turns)
responses (_ ∷ turns) = responses turns

-- Once the request is in the queue, behind `q`, it is settled by the response after those of `q`.
queued :
    (id : ℕ) (q later : List ℕ) (turns : List Turn)
    → All (λ r. r ≢ id) q
    → settled_loop id (q ++ (id ∷ later)) turns ≡ ltb (length q) (responses turns)
unfolding settled_loop responses
queued id [] later [] h = ground arith
queued id (r ∷ q) later [] h = ground arith
queued id q later (request r ∷ turns) h =
    rw (append_assoc q (id ∷ later) (r ∷ [])) (queued id q (later ++ (r ∷ [])) turns h)
queued id [] later (response ∷ turns) h = rw ==_refl (ground arith)
queued id (r ∷ q) later (response ∷ turns) (ne, h) = ground (arith, queued id q later turns h)
queued id q later (neither ∷ turns) h = queued id q later turns h

All-snoc :
    (id : ℕ) (q : List ℕ) (r : ℕ) → All (λ x. x ≢ id) q → r ≢ id → All (λ x. x ≢ id) (q ++ (r ∷ []))
All-snoc id [] r h ne = (ne, tt)
All-snoc id (x ∷ q) r (hx, h) ne = (hx, All-snoc id q r h ne)

-- Before it is in the queue, the other rows only move the queue.
before :
    (id : ℕ) (q : List ℕ) (pre post : List Turn)
    → All (λ r. r ≢ id) q
    → All (IsOther id) pre
    → settled_loop id q (pre ++ (request id ∷ post))
      ≡ ltb (scan open_step (length q) pre) (responses post)
unfolding settled_loop open_step scan
before id q [] post h o = queued id q [] post h
before id q (request r ∷ pre) post h (ne, o) =
    before id (q ++ (r ∷ [])) pre post (All-snoc id q r h ne) o
    ∙ ap (λ n. ltb (scan open_step n pre) (responses post))
        (omega (arith, length-append q (r ∷ [])))
before id [] (response ∷ pre) post h (_, o) = before id [] pre post tt o
before id (r ∷ q) (response ∷ pre) post (ne, h) (_, o) = ground (arith, before id q pre post h o)
before id q (neither ∷ pre) post h (_, o) = before id q pre post h o

abbrev pub turns_of : List Block → List Turn
turns_of = map (λ block. turn_of (from_block block))

-- Responses settle requests in the order of asking: a request is settled exactly if more responses
-- follow its row than requests were open before it. A response with no request open settles none.
pub settled_in_lem :
    (r : MetadataTitleRequest) (pre : List Block) (row : Block) (post : List Block)
    → turn_of (from_block row) ≡ request r.id
    → All (IsOther r.id) (turns_of pre)
    → settled_in r (pre ++ (row ∷ post))
      ≡ ltb (scan open_step 0 (turns_of pre)) (responses (turns_of post))
unfolding settled_in
settled_in_lem r pre row post at others =
    rw (map-append, at) (before r.id [] (turns_of pre) (turns_of post) tt others)
