-- ===== src/Mqtt/Relay/Channels.antt =====
-- About the channels of the confirmers: which were given out, whose they are, and what they were sent.
use ev_charge_controller.Prelude.{
  ℕ, ◌+◌, ◌<◌, ◌≡◌, ◌⊎◌, refl, sym, ap, ◌∙◌, subst, Bool, true, false, not, ◌&&◌, Option, none,
  some, List, [], ◌∷◌, All, arith, Bool-cases, inl, inr, ◌==◌, if◌then◌else◌, if_either,
}
use ev_charge_controller.Lwt.{set_at}
use ev_charge_controller.Mqtt.Relay.{
  Dispatcher, register_power_confirm, cache_power_state, bool_eq, is_change, confirm,
  dispatch_stat_power, WaitResult, confirmed, received, read_channel,
}

-- The channels that are in use or were sent to have been given out.
pub record IsFresh (d : Dispatcher) : Type 0 where
  pub registered : (p c : ℕ) → d.confirmers p ≡ some c → c < d.next_channel
  pub sent : All (λ (s : ℕ × Bool). s.0 < d.next_channel) d.signals

-- The channel is the plug's.
abbrev pub IsOwn : ℕ → ℕ → Dispatcher → Type 0
IsOwn plug channel d = (p : ℕ) → d.confirmers p ≡ some channel → p ≡ plug

pub received-unsent :
    (channel : ℕ) (ss : List (ℕ × Bool))
    → All (λ (s : ℕ × Bool). s.0 < channel) ss
    → received channel ss ≡ none
unfolding received
received-unsent channel [] h = refl
received-unsent channel ((c, on) ∷ ss) h = ground (arith, h.0, received-unsent channel ss h.1)

pub bool_eq_refl : (b : Bool) → bool_eq b b ≡ true
bool_eq_refl true = refl
bool_eq_refl false = refl

pub bool_eq_sound : (a b : Bool) → bool_eq a b ≡ true → a ≡ b
bool_eq_sound true true e = refl
bool_eq_sound true false e = absurd (cc e)
bool_eq_sound false true e = absurd (cc e)
bool_eq_sound false false e = refl

-- Two clauses of set_at.
pub set_at-some :
    {B : Type 0} (f : ℕ → Option B) (key : ℕ) (o : Option B) (p : ℕ) (b : B)
    → set_at f key o p ≡ some b
    → ((p ≡ key) × (o ≡ some b)) ⊎ (f p ≡ some b)
set_at-some f key o p b e = elim (Bool-cases (p == key)) [
  | inl same ↦ inl (ground arith, ground (arith, same, e))
  | inr other ↦ inr (ground (arith, other, e))
]

pub confirm-IsFresh :
    (d : Dispatcher) (p : ℕ) (state retained : Bool) (before : Option Bool) (o : Option ℕ)
    → d.confirmers p ≡ o
    → IsFresh d
    → IsFresh (confirm d p state retained before o)
confirm-IsFresh d p state retained before (some channel) e k = record {
  registered = λ q c h. elim (set_at-some d.confirmers p none q c h) [
    | inl never ↦ absurd (cc never.1)
    | inr kept ↦ k.registered q c kept
  ];
  sent = (k.registered p channel e, k.sent);
}
confirm-IsFresh d p state retained before none e k =
    if_either IsFresh (not retained && is_change before state)
      (record { registered = k.registered; sent = k.sent }) k

pub dispatch-IsFresh :
    (d : Dispatcher) (p : ℕ) (state retained : Bool)
    → IsFresh d
    → IsFresh (dispatch_stat_power d p state retained)
unfolding dispatch_stat_power cache_power_state
dispatch-IsFresh d p state retained k =
    confirm-IsFresh (cache_power_state d p state) p state retained (d.last_power_states p)
      (d.confirmers p) refl (record { registered = k.registered; sent = k.sent })

pub confirm-IsOwn :
    (d : Dispatcher) (plug channel p : ℕ) (state retained : Bool) (before : Option Bool)
    (o : Option ℕ)
    → IsOwn plug channel d
    → IsOwn plug channel (confirm d p state retained before o)
confirm-IsOwn d plug channel p state retained before (some c) k = λ q h.
    elim (set_at-some d.confirmers p none q channel h) [
      | inl never ↦ absurd (cc never.1)
      | inr kept ↦ k q kept
    ]
confirm-IsOwn d plug channel p state retained before none k =
    if_either (IsOwn plug channel) (not retained && is_change before state) k k

-- A dispatch sends to the channel only what the plug reports.
pub confirm-received :
    (d : Dispatcher) (plug channel p : ℕ) (state retained on : Bool) (before : Option Bool)
    (o : Option ℕ)
    → d.confirmers p ≡ o
    → IsOwn plug channel d
    → received channel (confirm d p state retained before o).signals ≡ some on
    → (received channel d.signals ≡ some on) ⊎ ((p == plug && bool_eq state on) ≡ true)
unfolding received
confirm-received d plug channel p state retained on before (some c) e own h =
    elim (Bool-cases (c == channel)) [
      | inl same ↦
          let q : c ≡ channel = ground arith in
          let owner : p ≡ plug = own p (e ∙ ap some q) in
          let said : state ≡ on = ground (arith, same, h) in
          inr (ground (arith, owner, subst (λ b. bool_eq state b ≡ true) said (bool_eq_refl state)))
      | inr other ↦ inl (ground (arith, other, h))
    ]
confirm-received d plug channel p state retained on before none e own h =
    inl (ap (received channel) (sym (unsent (not retained && is_change before state))) ∙ h)
  where
    unsent :
        (b : Bool)
        → (if b then record d { external = (p, state) ∷ d.external } else d).signals ≡ d.signals
    unsent true = refl
    unsent false = refl

pub raise :
    (n : ℕ) (ss : List (ℕ × Bool))
    → All (λ (s : ℕ × Bool). s.0 < n) ss
    → All (λ (s : ℕ × Bool). s.0 < n + 1) ss
raise n [] h = tt
raise n (s ∷ ss) h = (omega (arith, h.0), raise n ss h.1)

pub register-IsFresh :
    (d : Dispatcher) (plug : ℕ) → IsFresh d → IsFresh (register_power_confirm d plug)
unfolding register_power_confirm
register-IsFresh d plug k = record {
  registered = λ p c h. elim (set_at-some d.confirmers plug (some d.next_channel) p c h) [
    | inl new ↦ let q : d.next_channel ≡ c = cc new.1 in omega (arith, q)
    | inr kept ↦ omega (arith, k.registered p c kept)
  ];
  sent = raise d.next_channel d.signals k.sent;
}

pub register-IsOwn :
    (d : Dispatcher) (plug : ℕ)
    → IsFresh d
    → IsOwn plug d.next_channel (register_power_confirm d plug)
unfolding register_power_confirm
register-IsOwn d plug k = λ p h.
    elim (set_at-some d.confirmers plug (some d.next_channel) p d.next_channel h) [
      | inl new ↦ new.0
      | inr kept ↦ absurd (omega (arith, k.registered p d.next_channel kept))
    ]

pub register-signals :
    (d : Dispatcher) (plug : ℕ) → (register_power_confirm d plug).signals ≡ d.signals
unfolding register_power_confirm
register-signals d plug = refl

pub read-confirmed :
    (d : Dispatcher) (plug : ℕ) (on : Bool) (blocked again : Dispatcher × WaitResult)
    (o : Option Bool)
    → (read_channel d plug on blocked again o).1 ≡ confirmed
    → (blocked.1 ≡ confirmed) ⊎ ((o ≡ some on) ⊎ (again.1 ≡ confirmed))
read-confirmed d plug on blocked again none h = inl h
read-confirmed d plug on blocked again (some reported) h = elim (Bool-cases (bool_eq reported on)) [
  | inl same ↦ inr (inl (ap some (bool_eq_sound reported on same)))
  | inr opposite ↦ inr (inr (ground (arith, opposite, h)))
]

pub dispatch-IsOwn :
    (d : Dispatcher) (plug channel p : ℕ) (state retained : Bool)
    → IsOwn plug channel d
    → IsOwn plug channel (dispatch_stat_power d p state retained)
unfolding dispatch_stat_power cache_power_state
dispatch-IsOwn d plug channel p state retained k =
    confirm-IsOwn (cache_power_state d p state) plug channel p state retained
      (d.last_power_states p) (d.confirmers p) k

pub dispatch-received :
    (d : Dispatcher) (plug channel p : ℕ) (state retained on : Bool)
    → IsOwn plug channel d
    → received channel (dispatch_stat_power d p state retained).signals ≡ some on
    → (received channel d.signals ≡ some on) ⊎ ((p == plug && bool_eq state on) ≡ true)
unfolding dispatch_stat_power cache_power_state
dispatch-received d plug channel p state retained on own h =
    confirm-received (cache_power_state d p state) plug channel p state retained on
      (d.last_power_states p) (d.confirmers p) refl own h

-- A report goes to the channel that is registered for its plug.
pub delivered :
    (d : Dispatcher) (plug channel : ℕ) (on retained : Bool)
    → d.confirmers plug ≡ some channel
    → received channel (dispatch_stat_power d plug on retained).signals ≡ some on
unfolding dispatch_stat_power cache_power_state received
delivered d plug channel on retained e = ground (arith, e)
