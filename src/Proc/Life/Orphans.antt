-- ===== src/Proc/Life/Orphans.antt =====
-- What becomes of init, and of those who sleep on its channel, when exit passes on a zombie child.
use soproyecto.Common.{
  ◌||◌, Option-cases, ℕ, zero, suc, ◌+◌, ◌<◌, ◌≡◌, ◌≢◌, refl, sym, ap, ◌∙◌, Bool, true, false, ◌&&◌,
  Bool-cases, inl, inr, Option, none, some, List, [], ◌∷◌, ◌==◌, arith, get_elem?,
}
use mathlib.Core.Option
use mathlib.Core.Option.{some-injective}
use soproyecto.Proc.Defs.{
  Procstate, unused, embryo, runnable, running, Proc, zombie, sleeping, is_state, modify, proc_ptr,
}
use soproyecto.Proc.Table.{wake, wakeup1, adopt, reparent}
use soproyecto.Proc.Life.Reparent.{IsKept, field-reparent}
use soproyecto.Proc.Scan.{get_elem?-modify_ne, get_elem?-wakeup1}

-- A slot that sleeps on the channel.
abbrev pub waits : ℕ → Proc → Bool
waits chan p = is_state p.state sleeping && (p.chan == chan)

-- No slot sleeps on the channel.
abbrev pub NoSleeper : ℕ → List Proc → Type 0
NoSleeper chan ps = (j : ℕ) (q : Proc) → get_elem? ps j ≡ some q → waits chan q ≡ false

waits-wake : (chan c : ℕ) (p : Proc) → waits chan p ≡ false → waits chan (wake c p) ≡ false
unfolding wake
waits-wake chan c p h = ground arith

waits-wake_self : (chan : ℕ) (p : Proc) → waits chan (wake chan p) ≡ false
unfolding wake
waits-wake_self chan p = ground arith

-- What the slot `j` of the woken table was.
before_wake :
    (chan : ℕ) (ps : List Proc) (j : ℕ) (q : Proc)
    → get_elem? (wakeup1 chan ps) j ≡ some q
    → (p : Proc) × (get_elem? ps j ≡ some p) × (q ≡ wake chan p)
before_wake chan ps j q e = go (get_elem? ps j) refl
  where
    go :
        (o : Option Proc)
        → get_elem? ps j ≡ o
        → (p : Proc) × (get_elem? ps j ≡ some p) × (q ≡ wake chan p)
    go none a = absurd (ground (arith, get_elem?-wakeup1 chan ps j))
    go (some p) a = (p, a, ground (arith, get_elem?-wakeup1 chan ps j))

pub wakeup1-NoSleeper : (chan : ℕ) (ps : List Proc) → NoSleeper chan (wakeup1 chan ps)
wakeup1-NoSleeper chan ps j q e =
    let (p, at, is) = before_wake chan ps j q e in ap (waits chan) is ∙ waits-wake_self chan p

wakeup1-keeps : (chan c : ℕ) (ps : List Proc) → NoSleeper chan ps → NoSleeper chan (wakeup1 c ps)
wakeup1-keeps chan c ps h j q e =
    let (p, at, is) = before_wake c ps j q e in ap (waits chan) is ∙ waits-wake chan c p (h j p at)

module _ (chan curproc initproc : ℕ) where
  abbrev to_init : Proc → Proc
  to_init p = record p { parent = initproc }

  modify-keeps : (ps : List Proc) (i : ℕ) → NoSleeper chan ps → NoSleeper chan (modify ps i to_init)
  modify-keeps [] i h = h
  modify-keeps (p ∷ ps) zero h = go
    where
      go : NoSleeper chan (to_init p ∷ ps)
      go zero q e = ap (waits chan) (sym (some-injective _ _ e)) ∙ h 0 p refl
      go (suc j) q e = h (suc j) q e
  modify-keeps (p ∷ ps) (suc i) h = go (modify-keeps ps i (λ j. h (suc j)))
    where
      go : NoSleeper chan (modify ps i to_init) → NoSleeper chan (p ∷ modify ps i to_init)
      go rest zero q e = h 0 q e
      go rest (suc j) q e = rest j q e

  adopt-keeps :
      (ps : List Proc) (i : ℕ) (o : Option Proc)
      → NoSleeper chan ps
      → NoSleeper chan (adopt (proc_ptr i) curproc initproc ps o)
  unfolding adopt
  adopt-keeps ps i none h = h
  adopt-keeps ps i (some p) h = elim (Bool-cases (p.parent == curproc)) [
    | inr other ↦ rw other h
    | inl child ↦ rw child (elim (Bool-cases (is_state p.state zombie)) [
      | inl dead ↦ rw dead (wakeup1-keeps chan initproc _ (modify-keeps ps i h))
      | inr lives ↦ rw lives (modify-keeps ps i h)
    ])
  ]

  pub reparent-keeps :
      (n i : ℕ) (ps : List Proc)
      → NoSleeper chan ps
      → NoSleeper chan (reparent n (proc_ptr i) curproc initproc ps)
  unfolding reparent
  reparent-keeps zero i ps h = h
  reparent-keeps (suc n) i ps h = reparent-keeps n (suc i) _ (adopt-keeps ps i (get_elem? ps i) h)

-- A child of the process that ends which is a zombie.
pub record IsZombieChild (curproc : ℕ) (p : Proc) : Type 0 where
  pub child : p.parent ≡ curproc
  pub dead : p.state ≡ zombie

module _ (curproc initproc : ℕ) where
  wake_zombie : (c : ℕ) (p : Proc) → p.state ≡ zombie → wake c p ≡ p
  unfolding wake
  wake_zombie c p dead = rw dead

  -- The rounds at other slots leave a zombie child in its slot.
  adopt-zombie :
      (ps : List Proc) (i j : ℕ) (o : Option Proc) {p : Proc}
      → i ≢ j
      → get_elem? ps j ≡ some p
      → p.state ≡ zombie
      → get_elem? (adopt (proc_ptr i) curproc initproc ps o) j ≡ some p
  unfolding adopt
  adopt-zombie ps i j none apart at dead = at
  adopt-zombie ps i j (some q) {p} apart at dead = elim (Bool-cases (q.parent == curproc)) [
    | inr other ↦ rw other at
    | inl child ↦ rw child (elim (Bool-cases (is_state q.state zombie)) [
      | inr lives ↦ rw lives kept
      | inl gone ↦ rw gone (
          get_elem?-wakeup1 initproc (modify ps i (to_init curproc curproc initproc)) j
          ∙ ap (Option.map (wake initproc)) kept
          ∙ ap some (wake_zombie initproc p dead))
    ])
  ]
    where
      kept : get_elem? (modify ps i (λ r. record r { parent = initproc })) j ≡ some p
      kept = get_elem?-modify_ne ps i j (λ r. record r { parent = initproc }) apart ∙ at

  -- The round at a zombie child wakes init.
  adopt-wakes :
      (ps : List Proc) (i : ℕ) {p : Proc}
      → IsZombieChild curproc p
      → NoSleeper initproc (adopt (proc_ptr i) curproc initproc ps (some p))
  unfolding adopt
  adopt-wakes ps i {p} z =
      let child : (p.parent == curproc) ≡ true = ground (arith, z.child) in
      let dead : is_state p.state zombie ≡ true = ap (λ s. is_state s zombie) z.dead in
      rw (child, dead) (wakeup1-NoSleeper initproc _)

  -- If one of the slots passed is a zombie child, nobody sleeps on init's channel in the end.
  reparent-NoSleeper :
      (n i d : ℕ) (ps : List Proc) {p : Proc}
      → d < n
      → get_elem? ps (i + d) ≡ some p
      → IsZombieChild curproc p
      → NoSleeper initproc (reparent n (proc_ptr i) curproc initproc ps)
  unfolding reparent
  reparent-NoSleeper zero i d ps h at z = absurd (omega arith)
  reparent-NoSleeper (suc n) i zero ps {p} h at z =
      let here : get_elem? ps i ≡ some p = ap (get_elem? ps) (omega arith) ∙ at in
      rw here (reparent-keeps initproc curproc initproc n (suc i) _ (adopt-wakes ps i z))
  reparent-NoSleeper (suc n) i (suc d) ps {p} h at z =
      let there : get_elem? ps (suc i + d) ≡ some p = ap (get_elem? ps) (omega arith) ∙ at in
      reparent-NoSleeper n (suc i) d _ (omega arith)
        (adopt-zombie ps i (suc i + d) (get_elem? ps i) (omega arith) there z.dead) z

-- What a slot keeps that sleeps and may be woken.
abbrev is_dozing : Proc → Bool
is_dozing p = is_state p.state sleeping || is_state p.state runnable

is_dozing-IsKept : IsKept is_dozing
unfolding wake
is_dozing-IsKept = record { by_wake = λ c p. ground arith; by_parent = λ i p. refl }

chan-IsKept : IsKept (λ p. p.chan)
unfolding wake
chan-IsKept = record { by_wake = λ c p. ground arith; by_parent = λ i p. refl }

runnable_of :
    (s : Procstate)
    → is_state s sleeping ≡ false
    → (is_state s sleeping || is_state s runnable) ≡ true
    → s ≡ runnable
runnable_of unused a b = ground (arith, a, b)
runnable_of embryo a b = ground (arith, a, b)
runnable_of sleeping a b = ground (arith, a, b)
runnable_of runnable a b = refl
runnable_of running a b = ground (arith, a, b)
runnable_of zombie a b = ground (arith, a, b)

-- If one of the slots that the loop of exit passes is a zombie child, and init waits in the slot
-- `s`, which is to sleep on its own channel, then init is RUNNABLE when the loop ends, and nobody
-- sleeps on that channel.
pub reparent-wakes :
    (curproc initproc n i d s : ℕ) (ps : List Proc) {p init : Proc}
    → d < n
    → get_elem? ps (i + d) ≡ some p
    → IsZombieChild curproc p
    → get_elem? ps s ≡ some init
    → waits initproc init ≡ true
    → (let after = reparent n (proc_ptr i) curproc initproc ps in
        NoSleeper initproc after
        × (init' : Proc) × (get_elem? after s ≡ some init')
        × (init'.state ≡ runnable))
reparent-wakes curproc initproc n i d s ps {p} {init} h at z there asleep' =
    let after = reparent n (proc_ptr i) curproc initproc ps in
    let awake = reparent-NoSleeper curproc initproc n i d ps h at z in
    let dozes = field-reparent is_dozing is_dozing-IsKept curproc initproc n i ps s in
    let waiting_on = field-reparent (λ p. p.chan) chan-IsKept curproc initproc n i ps s in
    elim (Option-cases (get_elem? after s)) [
      | inl gone ↦ ground (arith, gone, there, dozes)
      | inr (q, slot) ↦
          let same_chan : q.chan ≡ init.chan = some-injective _ _ (
            ap (Option.map (λ p. p.chan)) (sym slot)
            ∙ waiting_on
            ∙ ap (Option.map (λ p. p.chan)) there) in
          let still : is_dozing q ≡ is_dozing init =
            some-injective _ _
              (ap (Option.map is_dozing) (sym slot) ∙ dozes ∙ ap (Option.map is_dozing) there) in
          let up : waits initproc q ≡ false = awake s q slot in
          (
            awake,
            q,
            slot,
            runnable_of q.state (ground (arith, up, same_chan, asleep'))
                (ground (arith, still, asleep')),
          )
    ]
