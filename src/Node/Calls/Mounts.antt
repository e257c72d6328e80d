-- ===== src/Node/Calls/Mounts.antt =====
-- What mounting on a host promises, and what the node's handlers make of it: each of them, when it
-- succeeds, is one change of the set of mounted paths.
use csi_thalassa.Prelude.{
  String, ◌≡◌, refl, sym, ◌∙◌, inl, inr, ◌⊎◌, Bool, true, false, not, List, ◌==◌, eq_iff,
  Bool-cases, if◌then◌else◌,
}
use csi_thalassa.Status.{Error}
use csi_thalassa.Exec.{Result, ok, err, handle, fail, pure, ◌>>=◌}
use csi_thalassa.Exec.Keeps.{Keeps, Keeps-after}
use csi_thalassa.Exec.Ensures.{Ensures, handle-Ensures}
use csi_thalassa.Node.Interface.{Host, QuietKeep}

-- The paths at which something is mounted, and one more or one less.
abbrev pub Mounts : Type 0
Mounts = String → Bool

unfoldable pub set : String → Bool → Mounts → Mounts
set target b mounts path = if target == path then b else mounts path

-- The host has a set of mounted paths that its looks tell, that mounting and unmounting change as
-- they say when they succeed, and that nothing else changes. One that fails may have made its
-- change or not: `mount.CleanupMountPoint` can fail after the unmount.
pub record MountTable (h : Host) : Type 0 where
  pub mounted : h.State → Mounts
  pub quiet : (mounts : Mounts) → QuietKeep h (λ s. (path : String) → mounted s path ≡ mounts path)
  pub format :
      (mounts : Mounts) (device fs_type : String)
      → Keeps (λ s. (path : String) → mounted s path ≡ mounts path) (h.format device fs_type)
  pub tells :
      (target : String) (b : Bool) (s s' : h.State)
      → h.is_mounted target s ≡ (ok b, s')
      → mounted s target ≡ b
  pub mount :
      (source target fs_type : String) (options : List String) (s s' : h.State)
      → h.mount source target fs_type options s ≡ (ok tt, s')
      → (path : String) → mounted s' path ≡ set target true (mounted s) path
  pub unmount :
      (target : String) (s s' : h.State)
      → h.unmount target s ≡ (ok tt, s')
      → (path : String) → mounted s' path ≡ set target false (mounted s) path
  pub mount_fails :
      (source target fs_type : String) (options : List String) (s s' : h.State) (e : Error)
      → h.mount source target fs_type options s ≡ (err e, s')
      → ((path : String) → mounted s' path ≡ mounted s path)
        ⊎ ((path : String) → mounted s' path ≡ set target true (mounted s) path)
  pub unmount_fails :
      (target : String) (s s' : h.State) (e : Error)
      → h.unmount target s ≡ (err e, s')
      → ((path : String) → mounted s' path ≡ mounted s path)
        ⊎ ((path : String) → mounted s' path ≡ set target false (mounted s) path)

-- Setting what is so already changes nothing.
pub set-same :
    (target : String) (b : Bool) (mounts : Mounts)
    → mounts target ≡ b
    → (path : String) → mounts path ≡ set target b mounts path
unfolding set
set-same target b mounts h path = elim (Bool-cases (target == path)) [
  | inl same ↦ rw (same, ← (eq_iff target path).0 same) h
  | inr other ↦ rw other refl
]

pub set-cong :
    (target : String) (b : Bool) (m n : Mounts)
    → ((path : String) → m path ≡ n path)
    → (path : String) → set target b m path ≡ set target b n path
unfolding set
set-cong target b m n h path = rw (h path) refl

module _ (h : Host) (table : MountTable h) where
  -- The mounted paths are these.
  abbrev pub Has : Mounts → h.State → Type 0
  Has mounts s = (path : String) → table.mounted s path ≡ mounts path

  pub look-Has :
      (mounts : Mounts) (target : String) (b : Bool) (s s' : h.State)
      → Has mounts s
      → h.is_mounted target s ≡ (ok b, s')
      → Has mounts s' × (mounts target ≡ b)
  look-Has mounts target b s s' p look = (
    Keeps-after (Has mounts) (h.is_mounted target) ((table.quiet mounts).looks.is_mounted target) p
        look,
    sym (p target) ∙ table.tells target b s s' look,
  )

  -- A mount under a test that nothing is mounted yet.
  pub guarded-Has :
      (mounts : Mounts) (source target fs_type : String) (options : List String) (g : Error → Error)
      (s : h.State)
      → Has mounts s
      → Ensures
          (λ _. Has (set target true mounts))
          ((do
            seen ← h.is_mounted target
            (if not seen
                then (handle (h.mount source target fs_type options) (λ e. fail (g e)) pure)
                else pure tt))
            s)
  guarded-Has mounts source target fs_type options g s p =
      handle-Ensures (λ _. Has (set target true mounts)) (h.is_mounted target) fail _ s
        (λ e s1 look. tt)
        (elim [
          | true ↦ λ s1 look path.
              let (same, seen) = look-Has mounts target true s s1 p look in
              same path ∙ set-same target true mounts seen path
          | false ↦ λ s1 look.
              handle-Ensures (λ _. Has (set target true mounts))
                (h.mount source target fs_type options) _ pure s1 (λ e s2 m. tt)
                (λ _ s2 m path.
                  table.mount source target fs_type options s1 s2 m path
                  ∙ set-cong target true (table.mounted s1) mounts
                      (look-Has mounts target false s s1 p look).0 path)
        ])

  -- Unmounting, whatever was mounted.
  pub unmount-Has :
      (mounts : Mounts) (target : String) (s : h.State)
      → Has mounts s
      → Ensures (λ _. Has (set target false mounts)) (h.unmount target s)
  unmount-Has mounts target s p = returned (h.unmount target s) refl
    where
      returned :
          (r : Result (Unit {0}) × h.State)
          → h.unmount target s ≡ r
          → Ensures (λ _. Has (set target false mounts)) r
      returned (ok _, s') e = λ path.
          table.unmount target s s' e path ∙ set-cong target false (table.mounted s) mounts p path
      returned (err x, s') e = tt
