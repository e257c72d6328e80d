-- ===== src/Controller/Concurrent/Liveness.antt =====
-- A request that has its turn often enough is answered, whatever happens in between.
use mathlib.Core.Path.{subst}
use csi_thalassa.Prelude.{
  ℕ, suc, Bool, ◌+◌, ◌≤◌, ◌≡◌, ◌≢◌, refl, ap, sym, ◌∙◌, true, false, inl, inr, List, [], ◌∷◌, none,
  some, length, get_elem?, eqb, if◌then◌else◌, Bool-cases, arith, get_elem?-set_self,
  get_elem?-append, length-append_one,
}
use csi_thalassa.Exec.{Result}
use csi_thalassa.Iaas.{Cloud}
use csi_thalassa.Driver.{Driver}
use csi_thalassa.Controller.{Request, Response, serve}
use csi_thalassa.Controller.Calls.{Call, Reply, perform}
use csi_thalassa.Controller.Replay.Descent.{head_call, descend-nil}
use csi_thalassa.Controller.Tree.{Tree, ret, call, interpret}
use csi_thalassa.Controller.Tree.Serve.{call_bound, serve-IsTree}
use csi_thalassa.Controller.Glimpse.{Glimpses, glimpse, perform-glimpse}
use csi_thalassa.Controller.Concurrent.{
  Task, next_call, result, System, Event, arrive, turn, elsewhere, new_task, told, happen, run,
}
use csi_thalassa.Controller.Concurrent.Position.{
  IsFit, position, next_call-position, result-position, enough_replies, told-IsFit, told-position,
}
use csi_thalassa.Controller.Concurrent.Turns.{turn-done, turn-call, happen-other}

-- How often the task has its turn.
abbrev pub turns : {S : Type 0} → ℕ → List (Event S) → ℕ
turns i [] = 0
turns i (arrive q rounds ∷ l) = turns i l
turns i (turn j ∷ l) = if eqb j i then suc (turns i l) else turns i l
turns i (elsewhere f ∷ l) = turns i l

eqb-false : (j i : ℕ) → eqb j i ≡ false → j ≢ i
eqb-false j i h e = ground arith

module _ (c : Cloud) (d : Driver) (i : ℕ) where
  -- A task that is done stays as it is.
  happen-done :
      (s : System c.State) (e : Event c.State) (t : Task)
      → get_elem? s.tasks i ≡ some t
      → next_call d t ≡ none
      → get_elem? (happen c d s e).tasks i ≡ some t
  unfolding happen
  happen-done s (arrive q rounds) t at_i is_done =
      get_elem?-append s.tasks i (new_task q rounds) at_i
  happen-done s (turn j) t at_i is_done = elim (Bool-cases (eqb j i)) [
    | inl same ↦
        let e : j ≡ i = ground arith in
        rw e
          (ap (λ (s : System c.State). get_elem? s.tasks i) (turn-done c d s i at_i is_done) ∙ at_i)
    | inr other ↦ happen-other c d s i j (eqb-false j i other) ∙ at_i
  ]
  happen-done s (elsewhere f) t at_i is_done = at_i

  run-done :
      (s : System c.State) (l : List (Event c.State)) (t : Task)
      → get_elem? s.tasks i ≡ some t
      → next_call d t ≡ none
      → get_elem? (run c d s l).tasks i ≡ some t
  unfolding run
  run-done s [] t at_i is_done = at_i
  run-done s (e ∷ l) t at_i is_done =
      run-done (happen c d s e) l t (happen-done s e t at_i is_done) is_done

  -- The states that the API is in at the task's turns.
  pub seen : System c.State → List (Event c.State) → List c.State
  seen s [] = []
  seen s (arrive q rounds ∷ l) = seen (happen c d s (arrive q rounds)) l
  seen s (turn j ∷ l) =
      let rest = seen (happen c d s (turn j)) l in if eqb j i then s.api ∷ rest else rest
  seen s (elsewhere f ∷ l) = seen (happen c d s (elsewhere f)) l

  -- The task of this number is one of this request, and has this result.
  abbrev pub IsAnswered : Request → Result Response → System c.State → Type 0
  IsAnswered q x s =
      (t : Task) × (get_elem? s.tasks i ≡ some t) × (t.request ≡ q) × (result d t ≡ some x)

  -- What the rest of a tree comes to over the states at the turns to come.
  outcome :
      ℕ → Tree Response → List c.State → System c.State → List (Event c.State) → Result Response
  outcome n u past s l = (interpret (glimpse n c) u (record { past = past; to_come = seen s l })).0

  outcome-turn :
      (n : ℕ) (k : Call) (f : Reply → Tree Response) (past : List c.State) (s : System c.State)
      (j : ℕ) (l : List (Event c.State))
      → eqb j i ≡ true
      → outcome n (call k f) past s (turn j ∷ l)
        ≡ outcome n (f (perform c k s.api).0) (s.api ∷ past) (happen c d s (turn j)) l
  unfolding outcome seen interpret
  outcome-turn n k f past s j l mine =
      let rest = seen (happen c d s (turn j)) l in
      ap
        (λ (b : Bool).
          (interpret (glimpse n c) (call k f)
            (record { past = past; to_come = if b then s.api ∷ rest else rest })).0)
        mine
      ∙ ap (λ (p : Reply × Glimpses c.State). (interpret (glimpse n c) (f p.0) p.1).0)
          (perform-glimpse n c s.api past rest k)

  outcome-other :
      (n : ℕ) (u : Tree Response) (past : List c.State) (s : System c.State) (j : ℕ)
      (l : List (Event c.State))
      → eqb j i ≡ false
      → outcome n u past s (turn j ∷ l) ≡ outcome n u past (happen c d s (turn j)) l
  unfolding outcome seen
  outcome-other n u past s j l other =
      let rest = seen (happen c d s (turn j)) l in
      ap
        (λ (b : Bool).
          (interpret (glimpse n c) u
            (record { past = past; to_come = if b then s.api ∷ rest else rest })).0)
        other

  -- A task with a result keeps it.
  IsAnswered-kept :
      (q : Request) (s : System c.State) (l : List (Event c.State)) (t : Task) (x : Result Response)
      → get_elem? s.tasks i ≡ some t
      → IsFit d t
      → t.request ≡ q
      → position d t ≡ ret x
      → IsAnswered q x (run c d s l)
  IsAnswered-kept q s l t x at_i fit same e = (
    t,
    run-done s l t at_i (next_call-position d t fit ∙ ap head_call e),
    same,
    result-position d t fit x e,
  )

  -- The task's turn leads to what its rest comes to from there.
  told-at :
      (s : System c.State) (j : ℕ) (t : Task) (k : Call) (f : Reply → Tree Response)
      → j ≡ i
      → get_elem? s.tasks i ≡ some t
      → IsFit d t
      → position d t ≡ call k f
      → get_elem? (happen c d s (turn j)).tasks i ≡ some (told t (perform c k s.api).0)
  told-at s j t k f e at_i fit stands =
      let t' = told t (perform c k s.api).0 in
      subst (λ (j : ℕ). get_elem? (happen c d s (turn j)).tasks i ≡ some t') (sym e)
        (ap (λ (s : System c.State). get_elem? s.tasks i)
            (turn-call c d s i at_i (next_call-position d t fit ∙ ap head_call stands))
          ∙ get_elem?-set_self s.tasks i t' at_i)

  -- With as many turns to come as the task may still have calls, it is answered.
  run-IsAnswered_from :
      (n : ℕ) (q : Request) (l : List (Event c.State)) (s : System c.State) (t : Task)
      (u : Tree Response) (past : List c.State)
      → get_elem? s.tasks i ≡ some t
      → IsFit d t
      → t.request ≡ q
      → position d t ≡ u
      → call_bound t.rounds t.request ≤ length t.replies + turns i l
      → IsAnswered q (outcome n u past s l) (run c d s l)
  unfolding run happen outcome interpret seen
  run-IsAnswered_from n q l s t (ret x) past at_i fit same e le =
      IsAnswered-kept q s l t x at_i fit same e
  run-IsAnswered_from n q [] s t (call k f) past at_i fit same e le =
      let (x, e') = enough_replies d t fit (omega arith) in absurd (cc)
  run-IsAnswered_from n q (arrive q' rounds ∷ l) s t (call k f) past at_i fit same e le =
      run-IsAnswered_from n q l (happen c d s (arrive q' rounds)) t (call k f) past
        (get_elem?-append s.tasks i (new_task q' rounds) at_i) fit same e le
  run-IsAnswered_from n q (elsewhere g ∷ l) s t (call k f) past at_i fit same e le =
      run-IsAnswered_from n q l (happen c d s (elsewhere g)) t (call k f) past at_i fit same e le
  run-IsAnswered_from n q (turn j ∷ l) s t (call k f) past at_i fit same e le =
      elim (Bool-cases (eqb j i)) [
        | inr other ↦
            subst (λ (x : Result Response). IsAnswered q x (run c d (happen c d s (turn j)) l))
              (sym (outcome-other n (call k f) past s j l other))
              (run-IsAnswered_from n q l (happen c d s (turn j)) t (call k f) past
                (happen-other c d s i j (eqb-false j i other) ∙ at_i) fit same e (rw other at le))
        | inl mine ↦
            let r = (perform c k s.api).0 in
            let le' : call_bound t.rounds t.request ≤ length t.replies + suc (turns i l) =
              rw mine at le in
            subst (λ (x : Result Response). IsAnswered q x (run c d (happen c d s (turn j)) l))
              (sym (outcome-turn n k f past s j l mine))
              (run-IsAnswered_from n q l (happen c d s (turn j)) (told t r) (f r) (s.api ∷ past)
                (told-at s j t k f (ground arith) at_i fit e) (told-IsFit d t fit c k f s.api e)
                same (told-position d t fit k f r e) (omega (arith, length-append_one t.replies r)))
      ]

  -- A request in progress without an answer yet has its result after as many turns as it may have
  -- calls, whatever the other requests do between these turns, and whatever else changes the API:
  -- the result of its method where each call meets the API as it is at that turn. It has four calls
  -- at most to create a volume, six to create a snapshot, six or seven beside the looks of its wait
  -- to attach or detach a volume, two to expand one, and one for all else.
  pub run-IsAnswered :
      (q : Request) (rounds : ℕ) (s : System c.State) (events : List (Event c.State))
      → get_elem? s.tasks i ≡ some (new_task q rounds)
      → call_bound rounds q ≤ turns i events
      → IsAnswered q
          (serve (glimpse rounds c) d q (record { past = []; to_come = seen s events })).0
          (run c d s events)
  unfolding outcome
  run-IsAnswered q rounds s events at_i enough =
      let h = serve-IsTree rounds d q in
      let g : Glimpses c.State = record { past = []; to_come = seen s events } in
      subst (λ (x : Result Response). IsAnswered q x (run c d s events))
        (ap (λ (p : Result Response × Glimpses c.State). p.0)
          (sym (h.same (glimpse rounds c) (λ m s. refl) g)))
        (run-IsAnswered_from rounds q events s (new_task q rounds) h.tree [] at_i tt refl
          (descend-nil h.tree) (omega arith))
