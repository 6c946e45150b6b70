-- ===== src/Services/Dns/Registry.antt =====
-- The names that Consul knows after the events of Docker.
use crunchy_containers.Prelude.{
  Bool, true, false, not, ◌&&◌, ◌≡◌, refl, sym, ap, ◌∙◌, subst, ◌⊎◌, List, [], ◌∷◌, ◌++◌, Option,
  none, some, all, if◌then◌else◌, if_then, if_else, Bool-cases, inl, inr,
}
use crunchy_containers.Prelude.Text.{Text, text_eq, is_empty, eq_of_text_eq}
use crunchy_containers.Services.Dns.{
  Service, Container, Request, deregister, register, Status, start, stop, destroy, die, other,
  requests, act_on, handle_event, and_then, serve,
}

-- An agent of Consul: its state, what a request does to it, and the address that it has for a name.
pub record Agent (B : Type 0) : Type 1 where
  pub State : Type 0
  pub receive : Request B → State → State
  pub address_of : Text → State → Option Text

-- What is documented of the two requests: they set and remove the service of that name, and leave
-- others alone.
pub record IsAgent {B : Type 0} (marshal : Service → B) (url : Text) (a : Agent B) : Type 0 where
  pub removed :
      (name : Text) (s : a.State) → a.address_of name (a.receive (deregister url name) s) ≡ none
  pub added :
      (x : Service) (s : a.State)
      → a.address_of x.name (a.receive (register marshal url x) s) ≡ some x.address
  pub kept_by_removal :
      (name other : Text) (s : a.State)
      → text_eq name other ≡ false
      → a.address_of other (a.receive (deregister url name) s) ≡ a.address_of other s
  pub kept_by_addition :
      (x : Service) (other : Text) (s : a.State)
      → text_eq x.name other ≡ false
      → a.address_of other (a.receive (register marshal url x) s) ≡ a.address_of other s

abbrev pub receive_all : {B : Type 0} (a : Agent B) → List (Request B) → a.State → a.State
receive_all a [] s = s
receive_all a (r ∷ rs) s = receive_all a rs (a.receive r s)

-- The specification, for one name: the address of the container of that name which started last, if
-- there was no event stop or destroy since at which it still had an address; an event without an
-- address is passed over.
abbrev pub by_status : Status → Text → Option Text → Option Text
by_status start ip known = some ip
by_status stop ip known = none
by_status destroy ip known = none
by_status _ ip known = known

abbrev pub by_name : Text → Status → Text → Text → Option Text → Option Text
by_name n status [] ip known = known
by_name n status (_ ∷ hostname) ip known =
    if is_empty ip then known else if text_eq hostname n then by_status status ip known else known

abbrev pub known_after : Text → Status × Option Container → Option Text → Option Text
known_after n (status, none) known = known
known_after n (status, some c) known = by_name n status c.name c.ip_address known

abbrev pub known_after_all : Text → List (Status × Option Container) → Option Text → Option Text
known_after_all n [] known = known
known_after_all n (e ∷ es) known = known_after_all n es (known_after n e known)

module _ {B : Type 0} (marshal : Service → B) (url : Text) (a : Agent B)
    (l : IsAgent marshal url a) where
  receive_all-append :
      (rs more : List (Request B)) (s : a.State)
      → receive_all a (rs ++ more) s ≡ receive_all a more (receive_all a rs s)
  receive_all-append [] more s = refl
  receive_all-append (r ∷ rs) more s = receive_all-append rs more (a.receive r s)

  -- The requests for a container, and a name that is its or another's.
  own_requests :
      (status : Status) (n ip : Text) (s : a.State)
      → a.address_of n (receive_all a (requests marshal url status n ip) s)
        ≡ by_status status ip (a.address_of n s)
  own_requests start n ip s = l.added (record { name = n; address = ip }) _
  own_requests stop n ip s = l.removed n s
  own_requests destroy n ip s = l.removed n s
  own_requests die n ip s = refl
  own_requests other n ip s = refl

  other_requests :
      (status : Status) (hostname n ip : Text) (s : a.State)
      → text_eq hostname n ≡ false
      → a.address_of n (receive_all a (requests marshal url status hostname ip) s)
        ≡ a.address_of n s
  other_requests start hostname n ip s h =
      l.kept_by_addition (record { name = hostname; address = ip }) n _ h
      ∙ l.kept_by_removal hostname n s h
  other_requests stop hostname n ip s h = l.kept_by_removal hostname n s h
  other_requests destroy hostname n ip s h = l.kept_by_removal hostname n s h
  other_requests die hostname n ip s h = refl
  other_requests other hostname n ip s h = refl

  -- A panic, or requests after which the agent has the given address for the name.
  abbrev Gives : Text → a.State → Option Text → Option (List (Request B)) → Type 0
  Gives n s known none = Unit
  Gives n s known (some rs) = a.address_of n (receive_all a rs s) ≡ known

  act_on-by_name :
      (status : Status) (name ip n : Text) (s : a.State)
      → Gives n s (by_name n status name ip (a.address_of n s)) (act_on marshal url status name ip)
  act_on-by_name status [] ip n s = tt
  act_on-by_name status (x ∷ hostname) ip n s = elim (Bool-cases (is_empty ip)) [
    | inl e ↦
        ap (λ rs. a.address_of n (receive_all a rs s)) (if_then (is_empty ip) _ _ e)
        ∙ sym (if_then (is_empty ip) _ _ e)
    | inr e ↦
        ap (λ rs. a.address_of n (receive_all a rs s)) (if_else (is_empty ip) _ _ e)
        ∙ by_hostname (Bool-cases (text_eq hostname n))
        ∙ sym (if_else (is_empty ip) _ _ e)
  ]
    where
      by_hostname :
          (text_eq hostname n ≡ true) ⊎ (text_eq hostname n ≡ false)
          → a.address_of n (receive_all a (requests marshal url status hostname ip) s) ≡ (
              if text_eq hostname n
              then by_status status ip (a.address_of n s)
              else a.address_of n s)
      by_hostname (inl e) =
          ap (λ h. a.address_of n (receive_all a (requests marshal url status h ip) s))
            (eq_of_text_eq hostname n e)
          ∙ own_requests status n ip s
          ∙ sym (if_then (text_eq hostname n) _ _ e)
      by_hostname (inr e) =
          other_requests status hostname n ip s e ∙ sym (if_else (text_eq hostname n) _ _ e)

  idle :
      (status : Status) (name ip n : Text) (known : Option Text)
      → ((k : Option Text) → by_status status ip k ≡ k)
      → by_name n status name ip known ≡ known
  idle status [] ip n known h = refl
  idle status (x ∷ hostname) ip n known h = elim (Bool-cases (is_empty ip)) [
    | inl e ↦ if_then (is_empty ip) _ _ e
    | inr e ↦
        if_else (is_empty ip) _ _ e
        ∙ ap (λ k. if text_eq hostname n then k else known) (h known)
        ∙ same (text_eq hostname n)
  ]
    where
      same : (b : Bool) → (if b then known else known) ≡ known
      same true = refl
      same false = refl

  handle_event-known_after :
      (e : Status × Option Container) (n : Text) (s : a.State)
      → Gives n s (known_after n e (a.address_of n s)) (handle_event marshal url e)
  unfolding handle_event
  handle_event-known_after (start, none) n s = refl
  handle_event-known_after (stop, none) n s = refl
  handle_event-known_after (destroy, none) n s = refl
  handle_event-known_after (die, none) n s = refl
  handle_event-known_after (other, none) n s = refl
  handle_event-known_after (start, some c) n s = act_on-by_name start c.name c.ip_address n s
  handle_event-known_after (stop, some c) n s = act_on-by_name stop c.name c.ip_address n s
  handle_event-known_after (destroy, some c) n s = act_on-by_name destroy c.name c.ip_address n s
  handle_event-known_after (die, some c) n s = sym (idle die c.name c.ip_address n _ (λ k. refl))
  handle_event-known_after (other, some c) n s =
      sym (idle other c.name c.ip_address n _ (λ k. refl))

  -- A panic of one part is a panic of the whole.
  and_then-Gives :
      (n : Text) (s : a.State) (o later : Option (List (Request B))) (middle last : Option Text)
      → Gives n s middle o
      → ((t : a.State) → a.address_of n t ≡ middle → Gives n t last later)
      → Gives n s last (and_then o later)
  and_then-Gives n s none later middle last h k = tt
  and_then-Gives n s (some rs) none middle last h k = tt
  and_then-Gives n s (some rs) (some more) middle last h k =
      ap (a.address_of n) (receive_all-append rs more s) ∙ k (receive_all a rs s) h

  serve-known_after_all :
      (es : List (Status × Option Container)) (n : Text) (s : a.State)
      → Gives n s (known_after_all n es (a.address_of n s)) (serve marshal url es)
  unfolding serve
  serve-known_after_all [] n s = refl
  serve-known_after_all (e ∷ es) n s =
      and_then-Gives n s (handle_event marshal url e) (serve marshal url es) _ _
        (handle_event-known_after e n s)
        (λ t h.
          subst (λ k. Gives n t (known_after_all n es k) (serve marshal url es)) h
            (serve-known_after_all es n t))

-- An inspected container has a name, which Docker starts with a slash.
abbrev pub is_named : Status × Option Container → Bool
is_named (status, none) = true
is_named (status, some c) = not (is_empty c.name)

act_on_named :
    {B : Type 0} (marshal : Service → B) (url : Text) (status : Status) (name ip : Text)
    → not (is_empty name) ≡ true
    → (rs : List (Request B)) × (act_on marshal url status name ip ≡ some rs)
act_on_named marshal url status [] ip h = cc
act_on_named marshal url status (x ∷ hostname) ip h = (_, refl)

handle_event_named :
    {B : Type 0} (marshal : Service → B) (url : Text) (e : Status × Option Container)
    → is_named e ≡ true
    → (rs : List (Request B)) × (handle_event marshal url e ≡ some rs)
unfolding handle_event
handle_event_named marshal url (start, none) h = (_, refl)
handle_event_named marshal url (stop, none) h = (_, refl)
handle_event_named marshal url (destroy, none) h = (_, refl)
handle_event_named marshal url (start, some c) h =
    act_on_named marshal url start c.name c.ip_address h
handle_event_named marshal url (stop, some c) h =
    act_on_named marshal url stop c.name c.ip_address h
handle_event_named marshal url (destroy, some c) h =
    act_on_named marshal url destroy c.name c.ip_address h
handle_event_named marshal url (die, c) h = (_, refl)
handle_event_named marshal url (other, c) h = (_, refl)

serve_named :
    {B : Type 0} (marshal : Service → B) (url : Text) (es : List (Status × Option Container))
    → all is_named es ≡ true
    → (rs : List (Request B)) × (serve marshal url es ≡ some rs)
unfolding serve
serve_named marshal url [] h = ([], refl)
serve_named marshal url (e ∷ es) h =
    let (first, p) = handle_event_named marshal url e (both (is_named e) (all is_named es) h).0 in
    let (later, q) = serve_named marshal url es (both (is_named e) (all is_named es) h).1 in
    (first ++ later, ap (λ o. and_then o (serve marshal url es)) p ∙ ap (and_then (some first)) q)
  where
    both : (b c : Bool) → b && c ≡ true → (b ≡ true) × (c ≡ true)
    both true c h = (refl, h)
    both false c h = cc

-- Whatever events come, in whatever order, if every container that Docker finds has a name, and the
-- agent sets and removes a service as its interface says: the bridge does not panic, and its requests
-- leave Consul, for each name, with the address of the container that started last, unless an event
-- stop or destroy came since at which the container of that name still has an address. An event
-- whose container is not found, or has no address, is passed over: then the name stays.
pub serve-refines :
    {B : Type 0} (marshal : Service → B) (url : Text) (a : Agent B)
    (es : List (Status × Option Container)) (n : Text) (s : a.State)
    → IsAgent marshal url a
    → all is_named es ≡ true
    → (rs : List (Request B)) × (serve marshal url es ≡ some rs)
      × (a.address_of n (receive_all a rs s) ≡ known_after_all n es (a.address_of n s))
serve-refines marshal url a es n s l h =
    let (rs, e) = serve_named marshal url es h in
    (
      rs,
      e,
      subst (Gives marshal url a l n s (known_after_all n es (a.address_of n s))) e
          (serve-known_after_all marshal url a l es n s),
    )
