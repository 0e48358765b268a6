-- ===== src/Cloud/Auth/Inversion.antt =====
-- What an action that succeeds has done, step by step.
use term_bridge.Prelude.{
  Bool, true, false, ◌≡◌, refl, sym, ap, subst, ◌∙◌, if◌then◌else◌, if_both, Option, none, some,
  List, [], ◌∷◌, Result, ok, err, arith,
}
use term_bridge.Cloud.Auth.{
  Tables, Db, Statement, AuthError, Action, ◌>>=◌, ◌>>◌, raise_if, closed_tx, within_tx, exec,
  query, find_row, db_failed,
}
use term_bridge.Cloud.Auth.Service.{or_raise, or_error}

-- The result, or else the given value.
abbrev pub result_or : {A : Type 0} → A → Result AuthError A → A
result_or a (ok b) = b
result_or a (err e) = a

abbrev pub is_ok : {A : Type 0} → Result AuthError A → Bool
is_ok (ok a) = true
is_ok (err e) = false

pub ok-injective : {A : Type 0} (a b : A) → ◌≡◌ {A = Result AuthError A} (ok a) (ok b) → a ≡ b
ok-injective a b e = ap (result_or a) e

pub err-ok :
    {A C : Type 0} (e : AuthError) (a : A) → ◌≡◌ {A = Result AuthError A} (err e) (ok a) → C
err-ok e a q = absurd (ground (arith, ap is_ok q))

-- The first step of an action that succeeds, and the rest of it.
abbrev pub Splits : {A B : Type 0} → Action A → (A → Action B) → Tables → Tables → B → Type 0
Splits m f t t' b = (a : _) × (t1 : Tables) × (m t ≡ (t1, ok a)) × (f a t1 ≡ (t', ok b))

pub bind-ok :
    {A B : Type 0} (m : Action A) (f : A → Action B) (t t' : Tables) (b : B)
    → (m >>= f) t ≡ (t', ok b)
    → Splits m f t t' b
bind-ok m f t t' b h = go (m t) refl h
  where
    go :
        (x : Tables × Result AuthError _)
        → m t ≡ x
        → (elim x.1 [ ok a ↦ f a x.0 | err e ↦ (x.0, err e) ]) ≡ (t', ok b)
        → Splits m f t t' b
    go (t1, ok a) q e = (a, t1, q, e)
    go (t1, err x) q e = err-ok x b (ap (λ y. y.1) e)

pub raise_if-ok :
    (b : Bool) (e : AuthError) (t t' : Tables) (u : Unit {0})
    → raise_if b e t ≡ (t', ok u)
    → (t' ≡ t) × (b ≡ false)
raise_if-ok true e t t' u h = err-ok e u (ap (λ y. y.1) h)
raise_if-ok false e t t' u h = (sym (ap (λ y. y.0) h), refl)

pub or_raise-ok :
    {A : Type 0} (o : Option A) (e : AuthError) (t t' : Tables) (a : A)
    → or_raise o e t ≡ (t', ok a)
    → (t' ≡ t) × (o ≡ some a)
or_raise-ok none e t t' a h = err-ok e a (ap (λ y. y.1) h)
or_raise-ok (some b) e t t' a h =
    (sym (ap (λ y. y.0) h), ap some (ok-injective b a (ap (λ y. y.1) h)))

module _ {A : Type 0} where
  pub within_tx-ok :
      (db : Db) (m : Action A) (t t' : Tables) (a : A)
      → within_tx db m t ≡ (t', ok a)
      → m t ≡ (t', ok a)
  unfolding within_tx
  within_tx-ok db m t t' a =
      if_both (λ x. x ≡ (t', ok a) → m t ≡ (t', ok a)) db.begin_fails (t, err db_failed)
        (closed_tx db t (m t)) (λ _ h. err-ok db_failed a (ap (λ y. y.1) h))
        (λ _ h. go (m t) refl h)
    where
      go :
          (x : Tables × Result AuthError A)
          → m t ≡ x
          → closed_tx db t x ≡ (t', ok a)
          → m t ≡ (t', ok a)
      go (t1, err e) q = λ h. err-ok e a (ap (λ y. y.1) h)
      go (t1, ok b) q =
          if_both (λ x. x ≡ (t', ok a) → m t ≡ (t', ok a)) db.commit_fails (t, err db_failed)
            (t1, ok b) (λ _ h. err-ok db_failed a (ap (λ y. y.1) h)) (λ _ h. q ∙ h)

  -- A transaction that fails leaves the tables as they are.
  pub within_tx-err :
      (db : Db) (m : Action A) (t : Tables) (e : AuthError)
      → (within_tx db m t).1 ≡ err e
      → (within_tx db m t).0 ≡ t
  unfolding within_tx
  within_tx-err db m t e =
      if_both (λ (x : Tables × Result AuthError A). x.1 ≡ err e → x.0 ≡ t) db.begin_fails _ _
        (λ _ _. refl) (λ _. go (m t))
    where
      go :
          (x : Tables × Result AuthError A)
          → (closed_tx db t x).1 ≡ err e
          → (closed_tx db t x).0 ≡ t
      go (t1, err f) = λ h. refl
      go (t1, ok b) =
          if_both (λ (x : Tables × Result AuthError A). x.1 ≡ err e → x.0 ≡ t) db.commit_fails _ _
            (λ _ _. refl) (λ _ h. err-ok e b (sym h))

  pub or_error-ok :
      (e : AuthError) (m : Action A) (t t' : Tables) (a : A)
      → or_error e m t ≡ (t', ok a)
      → m t ≡ (t', ok a)
  or_error-ok e m t t' a h = go (m t) refl h
    where
      go :
          (x : Tables × Result AuthError A)
          → m t ≡ x
          → ◌≡◌ {A = Tables × Result AuthError A}
              (elim x.1 [ ok b ↦ (x.0, ok b) | err _ ↦ (x.0, err e) ])
              (t', ok a)
          → m t ≡ (t', ok a)
      go (t1, ok b) q h = q ∙ h
      go (t1, err f) q h = err-ok e a (ap (λ y. y.1) h)

pub raise_then :
    {B : Type 0} (b : Bool) (e : AuthError) (k : Action B) (t t' : Tables) (a : B)
    → (raise_if b e >> k) t ≡ (t', ok a)
    → (b ≡ false) × (k t ≡ (t', ok a))
raise_then true e k t t' a h = err-ok e a (ap (λ y. y.1) h)
raise_then false e k t t' a h = (refl, h)

pub or_raise_then :
    {A B : Type 0} (o : Option A) (e : AuthError) (k : A → Action B) (t t' : Tables) (b : B)
    → (or_raise o e >>= k) t ≡ (t', ok b)
    → (a : A) × (o ≡ some a) × (k a t ≡ (t', ok b))
or_raise_then none e k t t' b h = err-ok e b (ap (λ y. y.1) h)
or_raise_then (some a) e k t t' b h = (a, refl, h)

pub exec-ok :
    (db : Db) (s : Statement) (f : Tables → Tables) (t t' : Tables) (u : Unit {0})
    → exec db s f t ≡ (t', ok u)
    → t' ≡ f t
exec-ok db s f t t' u =
    if_both (λ (x : Tables × Result AuthError (Unit {0})). x ≡ (t', ok u) → t' ≡ f t) (db.fails s) _
      _ (λ _ h. err-ok db_failed u (ap (λ y. y.1) h)) (λ _ h. sym (ap (λ y. y.0) h))

pub query-ok :
    {A : Type 0} (db : Db) (s : Statement) (f : Tables → Result AuthError A) (t t' : Tables) (a : A)
    → query db s f t ≡ (t', ok a)
    → (t' ≡ t) × (f t ≡ ok a)
query-ok db s f t t' a h = (sym (ap (λ y. y.0) h), go (ap (λ y. y.1) h))
  where
    go : (if db.fails s then err db_failed else f t) ≡ ok a → f t ≡ ok a
    go =
        if_both (λ x. x ≡ ok a → f t ≡ ok a) (db.fails s) (err db_failed) (f t)
          (λ _ q. err-ok db_failed a q) (λ _ q. q)

pub query_then :
    {A B : Type 0} (db : Db) (s : Statement) (f : Tables → Result AuthError A) (k : A → Action B)
    (t t' : Tables) (b : B)
    → (query db s f >>= k) t ≡ (t', ok b)
    → (a : A) × (f t ≡ ok a) × (k a t ≡ (t', ok b))
query_then db s f k t t' b h =
    let (a, t1, q, h1) = bind-ok (query db s f) k t t' b h in
    let (same, found) = query-ok db s f t t1 a q in
    (a, found, subst (λ x. k a x ≡ (t', ok b)) same h1)

pub find_row-ok :
    {A : Type 0} (p : A → Bool) (xs : List A) (a : A) → find_row p xs ≡ ok a → p a ≡ true
unfolding find_row
find_row-ok p [] a = λ h. err-ok _ a h
find_row-ok p (x ∷ xs) a =
    if_both (λ r. r ≡ ok a → p a ≡ true) (p x) (ok x) (find_row p xs)
      (λ y h. subst (λ z. p z ≡ true) (ok-injective x a h) y) (λ _ h. find_row-ok p xs a h)
