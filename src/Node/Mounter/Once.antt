-- ===== src/Node/Mounter/Once.antt =====
-- Mount runs one command, and how that ends is how Mount ends.
use csi_thalassa.Prelude.{
  String, ◌≡◌, ◌≢◌, ◌↔◌, ◌⊎◌, inl, inr, refl, true, false, List, [], ◌∷◌, ◌++◌, Option, none, some,
  ◌==◌, eq_iff, if◌then◌else◌, arith, Bool-cases,
}
use csi_thalassa.Status.{Error, plain}
use csi_thalassa.Exec.{Result, ok, err, Exec, settle, handle, fail, pure, failed}
use csi_thalassa.Exec.Keeps.{Keeps}
use csi_thalassa.Node.Mounter.{
  System, Exit, success, exit_status, not_run, join_options, flagged_options, option_arguments,
  mount_arguments, make_mount_point, run_or_fail, mount, outcome,
}

-- The value behind a flag on a command line of flags and values.
abbrev pub flag_value : String → List String → Option String
flag_value flag [] = none
flag_value flag (name ∷ []) = none
flag_value flag (name ∷ value ∷ l) = if name == flag then some value else flag_value flag l

-- The text of options; none where there are none.
abbrev pub option_text : List String → Option String
option_text [] = none
option_text (o ∷ l) = some (join_options (o ∷ l))

-- What `mount` is asked for: a source and a target behind the flags, of which `-t` has the type of
-- the file system, if there is one, and `-o` the options, with `nouuid` for `xfs`.
pub record MountLine (source target fs_type : String) (opts arguments : List String) : Type 0 where
  pub flags : List String
  pub spelled : arguments ≡ flags ++ source ∷ target ∷ []
  pub type_flag : flag_value "-t" flags ≡ (if fs_type == "" then none else some fs_type)
  pub option_flag :
      flag_value "-o" flags ≡ option_text (if fs_type == "xfs" then opts ++ "nouuid" ∷ [] else opts)

flagged_options_lem :
    (l : List String)
    → (flag_value "-t" (flagged_options l) ≡ none)
      × (flag_value "-o" (flagged_options l) ≡ option_text l)
unfolding flagged_options
flagged_options_lem [] = (refl, refl)
flagged_options_lem (o ∷ l) = (refl, refl)

mount_arguments-MountLine :
    (source target fs_type : String) (opts : List String)
    → MountLine source target fs_type opts (mount_arguments source target fs_type opts)
unfolding mount_arguments option_arguments
mount_arguments-MountLine source target fs_type opts = elim (Bool-cases (fs_type == "")) [
  | inl untyped ↦ record {
    flags = options;
    spelled = rw untyped;
    type_flag = rw untyped (flagged_options_lem given).0;
    option_flag = (flagged_options_lem given).1;
  }
  | inr typed ↦ record {
    flags = "-t" ∷ fs_type ∷ options;
    spelled = rw typed;
    type_flag = rw typed;
    option_flag = (flagged_options_lem given).1;
  }
]
  where
    given : List String
    given = if fs_type == "xfs" then opts ++ "nouuid" ∷ [] else opts

    options : List String
    options = flagged_options given

module _ (s : System) (P : List Exit → s.State → Type 0) (source target : String) where
  -- The command was run once, and its end is the result; or it was not run, and the result is an
  -- error.
  abbrev pub RunsOnce : Result (Unit {0}) × s.State → Type 0
  RunsOnce p =
      ((source ≢ "")
        × (target ≢ "")
        × (e : Exit) × P (e ∷ []) p.1
        × ((p.0 ≡ ok tt) ↔ (e ≡ success)))
      ⊎ (P [] p.1 × (failed p.0 ≡ true))

  handle-RunsOnce :
      {A : Type 0} (m : Exec s.State A) (h : Error → Error) (f : A → Exec s.State (Unit {0}))
      (w : s.State)
      → Keeps (P []) m
      → P [] w
      → ((a : A) (w' : s.State) → P [] w' → RunsOnce (f a w'))
      → RunsOnce (handle m (λ e. fail (h e)) f w)
  handle-RunsOnce {A} m h f w keeps p k = at (m w).0 (m w).1 (keeps w p)
    where
      at : (r : Result A) (w' : s.State) → P [] w' → RunsOnce (settle (λ e. fail (h e)) f r w')
      at (ok a) w' p = k a w' p
      at (err e) w' p = inr (p, refl)

  run_or_fail-RunsOnce :
      (arguments : List String) (failure : Error) (w : s.State)
      → source ≢ ""
      → target ≢ ""
      → P ((s.run "mount" arguments w).0.0 ∷ []) (s.run "mount" arguments w).1
      → RunsOnce (run_or_fail s "mount" arguments failure w)
  unfolding run_or_fail
  run_or_fail-RunsOnce arguments failure w sourced targeted p =
      at (s.run "mount" arguments w).0.0 (s.run "mount" arguments w).1 p
    where
      at :
          (e : Exit) (w' : s.State)
          → P (e ∷ []) w'
          → RunsOnce (settle (λ _. fail failure) pure (outcome s e) w')
      at success w' p = inl (sourced, targeted, success, p, (λ _. refl, λ _. refl))
      at (exit_status n) w' p =
          inl (sourced, targeted, exit_status n, p, (λ x. absurd (cc x), λ x. absurd (cc x)))
      at (not_run f) w' p =
          inl (sourced, targeted, not_run f, p, (λ x. absurd (cc x), λ x. absurd (cc x)))

-- Mount runs at most one command, `mount` with the source, the target, the type and the options, and
-- only for a source and a target that are given: it succeeds exactly if that command does, and fails
-- if it is not run. This is stated of any record of the ends of such commands that the look at the
-- source and the making of the mount point leave alone.
pub mounter_mount-RunsOnce :
    (s : System) (P : List Exit → s.State → Type 0) (source target fs_type : String)
    (opts : List String)
    → Keeps (P []) (s.stat source)
    → Keeps (P []) (make_mount_point s target fs_type)
    → ((arguments : List String)
        → MountLine source target fs_type opts arguments
        → (l : List Exit) (w : s.State) → P l w
        → P ((s.run "mount" arguments w).0.0 ∷ l) (s.run "mount" arguments w).1)
    → (w : s.State) → P [] w
    → RunsOnce s P source target (mount s source target fs_type opts w)
unfolding mount
mounter_mount-RunsOnce s P source target fs_type opts looks makes runs w p =
    elim (Bool-cases (source == "")) [
      | inl unsourced ↦ rw unsourced (inr (p, refl))
      | inr sourced ↦ rw sourced (elim (Bool-cases (target == "")) [
        | inl untargeted ↦ rw untargeted (inr (p, refl))
        | inr targeted ↦ rw targeted (
            handle-RunsOnce s P source target (s.stat source)
              (λ e. plain "source device %q does not exist or is not accessible: %v") _ w looks p
              λ _ w1 p1.
                handle-RunsOnce s P source target (make_mount_point s target fs_type) (λ e. e) _ w1
                  makes p1
                  λ _ w2 p2.
                    run_or_fail-RunsOnce s P source target
                      (mount_arguments source target fs_type opts)
                      (plain "mounting failed: %v cmd: '%s %s' output: %q") w2
                      (is_given source sourced) (is_given target targeted)
                      (runs (mount_arguments source target fs_type opts)
                        (mount_arguments-MountLine source target fs_type opts) [] w2 p2))
      ])
    ]
  where
    is_given : (x : String) → (x == "") ≡ false → x ≢ ""
    is_given x h = ground (arith, eq_iff x "")
