-- ===== src/Controller/Concurrent/Position.antt =====
-- Where a request in progress stands in its tree.
use csi_thalassa.Prelude.{◌≤◌, ◌≡◌, refl, ap, ◌∙◌, Option, some, length}
use csi_thalassa.Exec.{Result}
use csi_thalassa.Iaas.{Cloud}
use csi_thalassa.Driver.{Driver}
use csi_thalassa.Controller.{Response}
use csi_thalassa.Controller.Calls.{Call, Reply, perform}
use csi_thalassa.Controller.Replay.{Replay, replay}
use csi_thalassa.Controller.Replay.Descent.{
  started, descend, AllFit, head_call, replay-head_call, replay-result, descend-append,
  AllFit-append, descend-ret, perform-Fits,
}
use csi_thalassa.Controller.Tree.{Tree, ret, call, interpret}
use csi_thalassa.Controller.Tree.Serve.{call_bound, serve-IsTree}
use csi_thalassa.Controller.Concurrent.{Task, progress, next_call, result_of, result, told}

abbrev pub tree : Driver → Task → Tree Response
tree d t = (serve-IsTree t.rounds d t.request).tree

-- The answers are of the kinds of the calls that the task has made.
abbrev pub IsFit : Driver → Task → Type 0
IsFit d t = AllFit (tree d t) t.replies

-- What the task has still to do.
abbrev pub position : Driver → Task → Tree Response
position d t = descend (tree d t) t.replies

module _ (d : Driver) (t : Task) where
  progress-tree : progress d t ≡ interpret (replay t.rounds) (tree d t) (started t.replies)
  unfolding progress
  progress-tree =
      (serve-IsTree t.rounds d t.request).same (replay t.rounds) (λ m s. refl) (started t.replies)

  module _ (fit : IsFit d t) where
    pub next_call-position : next_call d t ≡ head_call (position d t)
    next_call-position =
        ap (λ (p : Result Response × Replay). p.1.asks) progress-tree
        ∙ ap (λ (p : Replay). p.asks) (replay-head_call t.rounds (tree d t) t.replies fit)

    pub result-position : (x : Result Response) → position d t ≡ ret x → result d t ≡ some x
    result-position x e =
        ap (λ (o : Option Call). result_of o (progress d t).0) (next_call-position ∙ ap head_call e)
        ∙ ap some (
            ap (λ (p : Result Response × Replay). p.0) progress-tree
            ∙ replay-result t.rounds (tree d t) t.replies x fit e)

    -- A task with as many answers as its request has calls has its result.
    pub enough_replies :
        call_bound t.rounds t.request ≤ length t.replies
        → (x : Result Response) × (position d t ≡ ret x)
    enough_replies le =
        descend-ret (call_bound t.rounds t.request) (tree d t) t.replies
          (serve-IsTree t.rounds d t.request).within fit le

    -- A task that is told the answer to its next call stands where the answer leads.
    pub told-IsFit :
        (c : Cloud) (k : Call) (f : Reply → Tree Response) (s : c.State)
        → position d t ≡ call k f
        → IsFit d (told t (perform c k s).0)
    told-IsFit c k f s e =
        AllFit-append k f (perform c k s).0 (tree d t) t.replies (perform-Fits c k s) e fit

    pub told-position :
        (k : Call) (f : Reply → Tree Response) (r : Reply)
        → position d t ≡ call k f
        → position d (told t r) ≡ f r
    told-position k f r e = descend-append k f r (tree d t) t.replies e
