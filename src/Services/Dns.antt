-- ===== src/Services/Dns.antt =====
-- dnsbridgeapi/dnsbridgeapi.go, dnsbridge/dnsbridgeserver.go and dnsbridge/consulclient.go: the
-- bridge from the events of Docker to the services that Consul knows. What Docker answers to an
-- inspection stands with the event; the answers of Consul and the encoding as JSON are arguments.
pub mod Config
pub mod Registry
pub mod Examples
use crunchy_containers.Prelude.{
  ℕ, zero, suc, Bool, true, false, List, [], ◌∷◌, ◌++◌, Option, none, some, ◌==◌, if◌then◌else◌,
}
use crunchy_containers.Prelude.Text.{Text, text, text_eq, is_empty}
use crunchy_containers.Prelude.Int.{ℤ}
use crunchy_containers.Cookie.{split}

pub record Service : Type 0 where
  pub name : Text
  pub address : Text

pub record Container : Type 0 where
  pub name : Text
  pub ip_address : Text

pub data Request (B : Type 0) : Type 0 where
  get : Text → Request B
  post : Text → B → Request B

-- No response, or one with a status code.
pub data Response : Type 0 where
  no_response : Response
  status_code : ℕ → Response

abbrev pub register_path : Text
register_path = text "/v1/agent/service/register"

abbrev pub deregister_path : Text
deregister_path = text "/v1/agent/service/deregister/"

-- `reverseIP`, of an address with four parts; it panics where there are fewer.
abbrev pub reverse_parts : List Text → Option Text
reverse_parts (a ∷ b ∷ c ∷ d ∷ _) =
    some (d ++ b'.' ∷ (c ++ b'.' ∷ (b ++ b'.' ∷ (a ++ text ".in-addr.arpa"))))
reverse_parts _ = none

unfoldable pub reverse_ip : Text → Option Text
unfolding split
reverse_ip ip = reverse_parts (split b'.' ip)

-- The requests of `Deregister` and `Register`, and whether they return an error.
unfoldable pub deregister : {B : Type 0} → Text → Text → Request B
deregister url name = get (url ++ (deregister_path ++ name))

unfoldable pub register : {B : Type 0} → (Service → B) → Text → Service → Request B
register marshal url service = post (url ++ register_path) (marshal service)

abbrev pub is_error : Response → Bool
is_error no_response = true
is_error (status_code n) = if n == 200 then false else true

-- The states of `msg.Status` that the bridge tells apart.
pub data Status : Type 0 where
  start stop destroy die other : Status

-- `Action`, on a container of that name: the requests that it makes. Their errors are not looked at.
abbrev pub requests : {B : Type 0} → (Service → B) → Text → Status → Text → Text → List (Request B)
requests marshal url start hostname ip =
    deregister url hostname ∷ register marshal url (record { name = hostname; address = ip }) ∷ []
requests marshal url stop hostname ip = deregister url hostname ∷ []
requests marshal url destroy hostname ip = deregister url hostname ∷ []
requests marshal url _ hostname ip = []

-- `none` is the panic of `container.Name[1:]`.
abbrev pub act_on :
    {B : Type 0} → (Service → B) → Text → Status → Text → Text → Option (List (Request B))
act_on marshal url status [] ip = none
act_on marshal url status (_ ∷ hostname) ip =
    some (if is_empty ip then [] else requests marshal url status hostname ip)

unfoldable pub action :
    {B : Type 0} → (Service → B) → Text → Status → Option Container → Option (List (Request B))
unfolding deregister register
action marshal url status none = some []
action marshal url status (some c) = act_on marshal url status c.name c.ip_address

-- The loop of `main` over the events.
unfoldable pub handle_event :
    {B : Type 0} → (Service → B) → Text → Status × Option Container → Option (List (Request B))
unfolding action
handle_event marshal url (start, c) = action marshal url start c
handle_event marshal url (stop, c) = action marshal url stop c
handle_event marshal url (destroy, c) = action marshal url destroy c
handle_event marshal url (die, c) = some []
handle_event marshal url (other, c) = some []

abbrev pub and_then :
    {B : Type 0} → Option (List (Request B)) → Option (List (Request B)) → Option (List (Request B))
and_then none later = none
and_then (some rs) none = none
and_then (some rs) (some more) = some (rs ++ more)

unfoldable pub serve :
    {B : Type 0}
    → (Service → B)
    → Text
    → List (Status × Option Container)
    → Option (List (Request B))
unfolding handle_event
serve marshal url [] = some []
serve marshal url (e ∷ es) = and_then (handle_event marshal url e) (serve marshal url es)

-- The pings before the loop: as many as MAX_TRIES, and no more after one that is answered.
unfoldable pub connect : ℕ → (ℕ → Bool) → ℕ → Bool × ℕ
connect zero answers tries = (false, tries)
connect (suc n) answers tries =
    let rest = connect n answers (suc tries) in if answers tries then (true, suc tries) else rest

-- `consulclient`: the request of a command, if it is one, and whether it is reported as failed.
abbrev pub client_error :
    {B : Type 0} → (Request B → Response) → Request B → List (Request B) × Bool
client_error answer r = (r ∷ [], is_error (answer r))

unfoldable pub consul_client :
    {B : Type 0}
    → (Service → B)
    → (Request B → Response)
    → Text
    → Text
    → Service
    → List (Request B) × Bool
unfolding deregister register
consul_client marshal answer url command service =
    if text_eq command (text "register")
    then client_error answer (register marshal url service)
    else if text_eq command (text "deregister")
    then client_error answer (deregister url service.name)
    else ([], false)
