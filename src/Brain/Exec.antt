-- ===== src/Brain/Exec.antt =====
-- Methods on `&mut Brain` that may fail. What was written before an error stays written.
use ray_exomem.Prelude.{
  Text, ◌+◌, ap, sym, ◌∙◌, Bool, true, false, ◌≡◌, refl, Option, some, if◌then◌else◌, arith,
}
use ray_exomem.Brain.{
  Foreign, Tables, Memory, Brain, Error, save_failed, DirtyTable, tx, fact, observation, belief,
  branch,
}

pub data Result {ℓ} (A : Type ℓ) : Type ℓ where
  ok : A → Result A
  err : Error → Result A

abbrev pub M : Foreign → Type 0 → Type 0
M F A = Brain F → Result A × Brain F

abbrev pub is_persistent : Option Text → Option Text → Bool
is_persistent (some d) (some s) = true
is_persistent _ _ = false

pub ok-injective {ℓ} : {A : Type ℓ} {a b : A} → ok a ≡ ok b → a ≡ b
ok-injective e = cc

module _ {F : Foreign} where
  abbrev pub continue : {A B : Type 0} → Result A × Brain F → (A → M F B) → Result B × Brain F
  continue (ok a, b) f = f a b
  continue (err e, b) f = (err e, b)

  infixl 5 ◌>>=◌ ◌>>◌
  abbrev pub ◌>>=◌ : {A B : Type 0} → M F A → (A → M F B) → M F B
  ◌>>=◌ m f b = continue (m b) f

  abbrev pub ◌>>◌ : {A B : Type 0} → M F A → M F B → M F B
  ◌>>◌ m n = m >>= λ _. n

  abbrev pub pure : {A : Type 0} → A → M F A
  pure a b = (ok a, b)

  abbrev pub bail : {A : Type 0} → Error → M F A
  bail e b = (err e, b)

  abbrev pub guard : Bool → Error → M F Unit
  guard true e b = (ok tt, b)
  guard false e b = (err e, b)

  abbrev pub gets : {A : Type 0} → (Memory F → A) → M F A
  gets f b = (ok (f b.memory), b)

  abbrev pub modify : (Memory F → Memory F) → M F Unit
  modify f b = (ok tt, record b { memory = f b.memory })

  -- One table copied from memory to disk (`build_*_table` and `save_table`).
  unfoldable pub copy_table : DirtyTable → Memory F → Tables F → Tables F
  copy_table tx m d = record d { transactions = m.transactions }
  copy_table fact m d = record d { facts = m.facts }
  copy_table observation m d = record d { observations = m.observations }
  copy_table belief m d = record d { beliefs = m.beliefs }
  copy_table branch m d = record d { branches = m.branches }

  unfoldable pub sym_save : M F Unit
  sym_save b =
      (if F.sym_save_ok b.ticks then ok tt else err save_failed, record b { ticks = b.ticks + 1 })

  unfoldable pub rebuild_splay : DirtyTable → M F Unit
  unfolding sym_save
  rebuild_splay table b =
      if is_persistent b.data_dir b.sym_path
      then (if F.save_table_ok b.ticks
          then sym_save (record b { disk = copy_table table b.memory b.disk; ticks = b.ticks + 1 })
          else (err save_failed, record b { ticks = b.ticks + 1 }))
      else (ok tt, b)

  pub memory-rebuild_splay :
      (t : DirtyTable) (b : Brain F) → (rebuild_splay t b).1.memory ≡ b.memory
  unfolding rebuild_splay
  memory-rebuild_splay t b = ground arith

  continue-eq-ok :
      {A B : Type 0} (p : Result A × Brain F) (f : A → M F B) {r : B} {b' : Brain F}
      → continue p f ≡ (ok r, b')
      → (a : A) × (p ≡ (ok a, p.1)) × (f a p.1 ≡ (ok r, b'))
  continue-eq-ok (ok a, s) f h = (a, refl, h)
  continue-eq-ok (err e, s) f h = absurd (cc (ap (λ q. q.0) h))

  -- Inversion of a block that succeeds.
  pub >>=-eq-ok :
      {A B : Type 0} (m : M F A) (f : A → M F B) (b : Brain F) {r : B} {b' : Brain F}
      → (m >>= f) b ≡ (ok r, b')
      → (a : A) × (m b ≡ (ok a, (m b).1)) × (f a (m b).1 ≡ (ok r, b'))
  >>=-eq-ok m f b h = continue-eq-ok (m b) f h

  -- A block that ends by a save returns its value, and the memory is that before the save.
  pub save_then_pure :
      {A : Type 0} (t : DirtyTable) (a : A) (b b' : Brain F) {r : A}
      → (rebuild_splay t >> pure a) b ≡ (ok r, b')
      → (r ≡ a) × (b'.memory ≡ b.memory)
  save_then_pure t a b b' h =
      let (u, _, e) = >>=-eq-ok (rebuild_splay t) (λ _. pure a) b h in
      let same : b' ≡ (rebuild_splay t b).1 = ap (λ q. q.1) (sym e) in
      (
        ok-injective (ap (λ q. q.0) (sym e)),
        ap (λ (c : Brain F). c.memory) same ∙ memory-rebuild_splay t b,
      )

  -- A block keeps a predicate on the memory, whether it ends well or not.
  module _ {ℓ} (P : Memory F → Type ℓ) where
    continue_keeps :
        {A B : Type 0} (p : Result A × Brain F) (f : A → M F B)
        → P p.1.memory
        → ((a : A) → p.0 ≡ ok a → P (f a p.1).1.memory)
        → P (continue p f).1.memory
    continue_keeps (ok a, s) f h k = k a refl
    continue_keeps (err e, s) f h k = h

    pub keeps_bind :
        {A B : Type 0} (m : M F A) (f : A → M F B) (b : Brain F)
        → P (m b).1.memory
        → ((a : A) → (m b).0 ≡ ok a → P (f a (m b).1).1.memory)
        → P ((m >>= f) b).1.memory
    keeps_bind m f b h k = continue_keeps (m b) f h k

    pub keeps_save : (t : DirtyTable) (b : Brain F) → P b.memory → P (rebuild_splay t b).1.memory
    keeps_save t b h = rw (memory-rebuild_splay t b) h

    pub keeps_save_then_pure :
        {A : Type 0} (t : DirtyTable) (a : A) (b : Brain F)
        → P b.memory
        → P ((rebuild_splay t >> pure a) b).1.memory
    keeps_save_then_pure t a b h =
        keeps_bind (rebuild_splay t) (λ _. pure a) b (keeps_save t b h) (λ _ _. keeps_save t b h)
