-- ===== src/Realtime/Commands.antt =====
-- A command is settled at most once, and is never forgotten.
use doxajs.Base.{
  ◌≡◌, true, ap, ◌∙◌, delete-cons_self, some, String, Bool, ◌⊎◌, inl, inr, refl, sym, subst, Option,
  List, [], ◌∷◌, map, has, delete, str_eq, eq_iff, Elem, Distinct, Elem-of_has, Elem-delete,
  Bool-cases,
}
use doxajs.Js.{Numbers, Texts}
use doxajs.Realtime.State.{Options, Settled, Commands, Client}
use doxajs.Realtime.Channels.{
  settle_all, settle_pending_commands, settle, expire_command, clear_each,
}
use doxajs.Realtime.Events.{Event, call_command, handle, run}
use doxajs.Realtime.Settling.{Sends, handle-Q}

abbrev pub settled_ids : List Settled → List String
settled_ids ss = map (λ s. s.id) ss

-- No id is twice among the waiting and the settled ones, and just the waiting ones have timers.
pub record Once (cs : Commands) : Type 0 where
  pub waiting_once : Distinct cs.waiting
  pub settled_once : Distinct (settled_ids cs.settled)
  pub apart : (k : String) → Elem k cs.waiting → ¬ Elem k (settled_ids cs.settled)
  pub armed : cs.timers ≡ cs.waiting

Elem-of_delete : (k j : String) (js : List String) → Elem j (delete k js) → Elem j js
unfolding delete
Elem-of_delete k j [] m = m
Elem-of_delete k j (i ∷ js) m = elim (Bool-cases (str_eq i k)) [
  | inl same ↦ inr (rw same at m)
  | inr other ↦ elim (rw other at m) as (λ _. Elem j (i ∷ js)) [
    | inl e ↦ inl e
    | inr later ↦ inr (Elem-of_delete k j js later)
  ]
]

Distinct-delete : (k : String) (js : List String) → Distinct js → Distinct (delete k js)
unfolding delete
Distinct-delete k [] d = d
Distinct-delete k (i ∷ js) (fresh, d) = elim (Bool-cases (str_eq i k)) [
  | inl same ↦ rw same d
  | inr other ↦ rw other ((λ m. fresh (Elem-of_delete k i js m)), Distinct-delete k js d)
]

not-Elem-delete : (k : String) (js : List String) → Distinct js → ¬ Elem k (delete k js)
unfolding delete
not-Elem-delete k [] d m = m
not-Elem-delete k (i ∷ js) (fresh, d) m = elim (Bool-cases (str_eq i k)) [
  | inl same ↦ fresh (subst (λ j. Elem j js) (sym ((eq_iff i k).0 same)) (rw same at m))
  | inr other ↦ elim (rw other at m) as (λ _. ⊥) [
    | inl e ↦ cc ((eq_iff i k).1 e, other)
    | inr later ↦ not-Elem-delete k js d later
  ]
]

settle-Once :
    (i : String) (code : Option String) (cs : Commands)
    → has i cs.waiting ≡ true
    → Once cs
    → Once (settle i code cs)
settle-Once i code cs h o = record {
  waiting_once = Distinct-delete i cs.waiting o.waiting_once;
  settled_once = (o.apart i (Elem-of_has i cs.waiting h), o.settled_once);
  apart = λ k m met. elim met [
    | inl e ↦
        not-Elem-delete i cs.waiting o.waiting_once
          (subst (λ j. Elem j (delete i cs.waiting)) (sym e) m)
    | inr old ↦ o.apart k (Elem-of_delete i k cs.waiting m) old
  ];
  armed = ap (delete i) o.armed;
}

-- A timer that is still set belongs to a command that waits.
expire_command-Once :
    (i : String) (cs : Commands) → has i cs.timers ≡ true → Once cs → Once (expire_command i cs)
expire_command-Once i cs h o =
    settle-Once i (some "command_ack_timeout") cs (subst (λ js. has i js ≡ true) o.armed h) o

clear_each-all : (is : List String) → clear_each is is ≡ []
unfolding clear_each
clear_each-all [] = refl
clear_each-all (i ∷ is) = ap (clear_each is) (delete-cons_self i is) ∙ clear_each-all is

settle_all-Once :
    (code : String) (is : List String) (done : List Settled)
    → Distinct is
    → Distinct (settled_ids done)
    → ((k : String) → Elem k is → ¬ Elem k (settled_ids done))
    → Distinct (settled_ids (settle_all code is done))
unfolding settle_all
settle_all-Once code [] done d e apart = e
settle_all-Once code (i ∷ is) done (fresh, d) e apart =
    settle_all-Once code is (record { id = i; code = some code } ∷ done) d (apart i (inl refl), e)
      (λ k m met. elim met [
        | inl same ↦ fresh (subst (λ j. Elem j is) (sym same) m)
        | inr old ↦ apart k (inr m) old
      ])

settle_pending_commands-Once :
    (code : String) (cs : Commands) → Once cs → Once (settle_pending_commands code cs)
settle_pending_commands-Once code cs o = record {
  waiting_once = tt;
  settled_once = settle_all-Once code cs.waiting cs.settled o.waiting_once o.settled_once o.apart;
  apart = λ k m. elim m [ ];
  armed = ap (clear_each cs.waiting) o.armed ∙ clear_each-all cs.waiting;
}

-- The id of a command is waiting or settled.
abbrev pub Accounted : String → Commands → Type 0
Accounted k cs = Elem k cs.waiting ⊎ Elem k (settled_ids cs.settled)

settle-Accounted :
    (k i : String) (code : Option String) (cs : Commands)
    → has i cs.waiting ≡ true
    → Accounted k cs
    → Accounted k (settle i code cs)
settle-Accounted k i code cs h (inr done) = inr (inr done)
settle-Accounted k i code cs h (inl waits) = elim (Bool-cases (str_eq k i)) [
  | inl same ↦ inr (inl (sym ((eq_iff k i).0 same)))
  | inr other ↦ inl (Elem-delete i k cs.waiting waits (λ e. cc ((eq_iff k i).1 e, other)))
]

expire_command-Accounted :
    (k i : String) (cs : Commands)
    → has i cs.timers ≡ true
    → Accounted k cs
    → Accounted k (expire_command i cs)
expire_command-Accounted k i cs h (inr done) = inr (inr done)
expire_command-Accounted k i cs h (inl waits) = elim (Bool-cases (str_eq k i)) [
  | inl same ↦ inr (inl (sym ((eq_iff k i).0 same)))
  | inr other ↦ inl (Elem-delete i k cs.waiting waits (λ e. cc ((eq_iff k i).1 e, other)))
]

settle_all-keeps :
    (k code : String) (is : List String) (done : List Settled)
    → Elem k is ⊎ Elem k (settled_ids done)
    → Elem k (settled_ids (settle_all code is done))
unfolding settle_all
settle_all-keeps k code [] done (inl m) = elim m [ ]
settle_all-keeps k code [] done (inr m) = m
settle_all-keeps k code (i ∷ is) done a =
    settle_all-keeps k code is (record { id = i; code = some code } ∷ done) (elim a [
      | inl m ↦ elim m [ inl e ↦ inr (inl e) | inr later ↦ inl later ]
      | inr m ↦ inr (inr m)
    ])

settle_pending_commands-Accounted :
    (k code : String) (cs : Commands)
    → Accounted k cs
    → Accounted k (settle_pending_commands code cs)
settle_pending_commands-Accounted k code cs a =
    inr (settle_all-keeps k code cs.waiting cs.settled a)

module _ {N : Type 0} (ns : Numbers N) (ts : Texts N) (is_ticket : String → Bool)
    (o : Options) where
  -- The id of a new command has not been used.
  abbrev pub Fresh : Event N → Client → Type 0
  Fresh (call_command i) c =
      (¬ Elem i c.commands.waiting) × (¬ Elem i (settled_ids c.commands.settled))
  Fresh e c = Unit

  abbrev pub AllFresh : List (Event N) → Client → Type 0
  AllFresh [] c = Unit
  AllFresh (e ∷ es) c = Fresh e c × AllFresh es (handle ns ts is_ticket o e c)

  Sends-Once :
      (e : Event N) (c : Client)
      → Fresh e c
      → Once c.commands
      → Sends Once settle-Once expire_command-Once settle_pending_commands-Once ns ts e c
  Sends-Once (call_command i) c (a, b) once = (
    record {
      waiting_once = (a, once.waiting_once);
      settled_once = once.settled_once;
      apart = λ k m met. elim m [
        | inl e ↦ b (subst (λ j. Elem j (settled_ids c.commands.settled)) (sym e) met)
        | inr later ↦ once.apart k later met
      ];
      armed = ap (λ js. i ∷ js) once.armed;
    },
    record {
      waiting_once = once.waiting_once;
      settled_once = (b, once.settled_once);
      apart = λ k m met. elim met [
        | inl e ↦ a (subst (λ j. Elem j c.commands.waiting) (sym e) m)
        | inr old ↦ once.apart k m old
      ];
      armed = once.armed;
    },
  )
  Sends-Once _ c f once = tt

  -- If the ids of new commands are fresh, then after any events no command has been settled twice,
  -- none that waits has been settled, and the timers that are set are those of the commands that wait.
  pub run-Once :
      (es : List (Event N)) (c : Client)
      → AllFresh es c
      → Once c.commands
      → Once (run ns ts is_ticket o es c).commands
  unfolding run
  run-Once [] c f once = once
  run-Once (e ∷ es) c (f, fs) once = run-Once es (handle ns ts is_ticket o e c) fs (
      handle-Q Once settle-Once expire_command-Once settle_pending_commands-Once ns ts is_ticket o e
        c (Sends-Once e c f once) once)

  module _ (k : String) where
    Sends-Accounted :
        (e : Event N) (c : Client)
        → Accounted k c.commands
        → Sends
            (Accounted k)
            (settle-Accounted k)
            (expire_command-Accounted k)
            (settle_pending_commands-Accounted k)
            ns
            ts
            e
            c
    Sends-Accounted (call_command i) c a = (
      elim a [ inl m ↦ inl (inr m) | inr m ↦ inr m ],
      elim a [ inl m ↦ inl m | inr m ↦ inr (inr m) ],
    )
    Sends-Accounted _ c a = tt

  -- A command that waits or is settled does so after any events.
  pub run-Accounted :
      (k : String) (es : List (Event N)) (c : Client)
      → Accounted k c.commands
      → Accounted k (run ns ts is_ticket o es c).commands
  unfolding run
  run-Accounted k [] c a = a
  run-Accounted k (e ∷ es) c a = run-Accounted k es (handle ns ts is_ticket o e c) (
      handle-Q (Accounted k) (settle-Accounted k) (expire_command-Accounted k)
        (settle_pending_commands-Accounted k) ns ts is_ticket o e c (Sends-Accounted k e c a) a)
