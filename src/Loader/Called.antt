-- ===== src/Loader/Called.antt =====
-- The calls that the subscribed closures make for an event, and the calls that the decorators ask for.
use ts_queue.Loader.{Provider, Method, Listener, OnJobEvent, passes}
use ts_queue.Prelude.{
  ℕ, ◌+◌, ◌<◌, ◌&&◌, ◌||◌, not, or_default, text_discrete, true, String, Bool, List, [], ◌∷◌, ◌++◌,
  Option, none, some, ◌≡◌, ◌≢◌, ap, refl, arith, same, if◌then◌else◌, Bool-cases, Option-cases, inl,
  inr,
}

-- A call of a method: the processor and the name of the method.
abbrev pub MethodCall : Type 0
MethodCall = ℕ × String

-- The closures that the event manager calls with an event of this name, and of them those that call their method with a
-- job of this connection. The loader adds its closures in order, and the event manager calls them in order.
unfoldable pub called : (ℕ → Bool) → Option String → List Listener → List MethodCall
unfolding passes
called hears connection [] = []
called hears connection (l ∷ ls) =
    let rest = called hears connection ls in
    if hears l.number && passes l.binding connection then (l.host, l.method) ∷ rest else rest

-- `@OnJobEvent` without a connection, or with an empty one, is for every connection.
abbrev pub is_restricted : OnJobEvent → Bool
is_restricted b = not (same (or_default b.connection "") "")

-- Whether an entry is meant to hear an event: of a job of this connection, or, for `none`, an event that carries no job.
-- A restriction is to jobs of the connection that the entry names, and says nothing on events without a job.
unfoldable pub in_scope : Option String → OnJobEvent → Bool
in_scope none b = true
in_scope (some c) b = not (is_restricted b) || same c (or_default b.connection "")

-- The filter of the closures is that, for jobs whose connection has a name.
pub passes-in_scope :
    (connection : Option String) (b : OnJobEvent)
    → connection ≢ some ""
    → passes b connection ≡ in_scope connection b
unfolding passes in_scope text_discrete
passes-in_scope none b named = elim (Option-cases b.connection) [
  | inl e ↦ rw e refl
  | inr (d, e) ↦ rw e refl
]
passes-in_scope (some c) b named = elim (Option-cases b.connection) [
  | inl e ↦ rw e refl
  | inr (d, e) ↦ rw e (restricted d (λ q. named (ap some q)))
]
  where
    restricted :
        (d : String)
        → c ≢ ""
        → (if same d "" then true else if same c "" then true else same c d)
          ≡ (not (not (same d "")) || same c d)
    restricted d n = elim (Bool-cases (same c "")) [
      | inl p ↦ absurd (n (ground (arith, p)))
      | inr p ↦ rw p (elim (Bool-cases (same d "")) [ inl q ↦ rw q refl | inr q ↦ rw q refl ])
    ]

-- What the decorators ask for: the methods with an entry for the event that is meant to hear it.
unfoldable pub asked_of_entries :
    String → Option String → ℕ → String → List OnJobEvent → List MethodCall
unfolding in_scope
asked_of_entries event connection host method [] = []
asked_of_entries event connection host method (b ∷ bs) =
    let rest = asked_of_entries event connection host method bs in
    if same b.event event && in_scope connection b then (host, method) ∷ rest else rest

unfoldable pub asked_of_methods : String → Option String → ℕ → List Method → List MethodCall
unfolding asked_of_entries
asked_of_methods event connection host [] = []
asked_of_methods event connection host (m ∷ ms) =
    asked_of_entries event connection host m.key m.entries
    ++ asked_of_methods event connection host ms

unfoldable pub asked : String → Option String → List Provider → List MethodCall
unfolding asked_of_methods
asked event connection [] = []
asked event connection (p ∷ ps) = elim p.metadata [
  | none ↦ asked event connection ps
  | some _ ↦ asked_of_methods event connection p.number p.methods ++ asked event connection ps
]

pub called-added :
    (h : ℕ → Bool) (c : Option String) (xs : List Listener) (l : Listener)
    → called h c (xs ++ l ∷ []) ≡ called h c xs ++ called h c (l ∷ [])
unfolding called
called-added h c [] l = refl
called-added h c (x ∷ xs) l = elim (Bool-cases (h x.number && passes x.binding c)) [
  | inl e ↦ rw e (ap (λ r. (x.host, x.method) ∷ r) (called-added h c xs l))
  | inr e ↦ rw e (called-added h c xs l)
]

-- The numbers of the listeners stay below `n`.
abbrev pub Below : ℕ → List Listener → Type 0
Below n [] = Unit
Below n (l ∷ ls) = (l.number < n) × Below n ls

pub called-Below :
    (h g : ℕ → Bool) (c : Option String) (n : ℕ) (xs : List Listener)
    → ((k : ℕ) → k < n → h k ≡ g k)
    → Below n xs
    → called h c xs ≡ called g c xs
unfolding called
called-Below h g c n [] same_below b = refl
called-Below h g c n (x ∷ xs) same_below b =
    rw (same_below x.number b.0, called-Below h g c n xs same_below b.1) refl

pub Below-added :
    (n : ℕ) (xs : List Listener) (l : Listener)
    → l.number ≡ n
    → Below n xs
    → Below (n + 1) (xs ++ l ∷ [])
Below-added n [] l e b = (omega (arith, e), tt)
Below-added n (x ∷ xs) l e b = (omega (arith, b.0), Below-added n xs l e b.1)
