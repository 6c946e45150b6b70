-- ===== src/Services/Dns/Examples.antt =====
-- Two containers, and an agent whose state is a function.
use crunchy_containers.Prelude.{
  ℕ, zero, suc, true, false, ◌≡◌, refl, List, [], ◌∷◌, Option, none, some, if◌then◌else◌, if_then,
  if_else,
}
use crunchy_containers.Prelude.Text.{Text, text, text_eq, text_eq_self}
use crunchy_containers.Services.Dns.{
  Service, Container, Request, get, post, status_code, deregister, register, Status, start, stop,
  destroy, die, serve, connect, consul_client, reverse_ip,
}
use crunchy_containers.Services.Checks.{Environment, bad_value}
use crunchy_containers.Services.Dns.Config.{read_settings}
use crunchy_containers.Services.Dns.Registry.{Agent, IsAgent, receive_all, serve-refines}

abbrev drop_chars : ℕ → Text → Text
drop_chars zero s = s
drop_chars (suc k) [] = []
drop_chars (suc k) (_ ∷ s) = drop_chars k s

abbrev url : Text
url = text "c"

-- The prefix of a request to deregister has 30 characters.
abbrev receive : Request Service → (Text → Option Text) → Text → Option Text
receive (get u) s n = if text_eq (drop_chars 30 u) n then none else s n
receive (post u x) s n = if text_eq x.name n then some x.address else s n

abbrev agent : Agent Service
agent = record { State = Text → Option Text; receive = receive; address_of = λ n s. s n }

abbrev same : Service → Service
same x = x

agent-IsAgent : IsAgent same url agent
unfolding deregister register
agent-IsAgent = record {
  removed = λ name s. if_then (text_eq name name) _ _ (text_eq_self name);
  added = λ x s. if_then (text_eq x.name x.name) _ _ (text_eq_self x.name);
  kept_by_removal = λ name o s h. if_else (text_eq name o) _ _ h;
  kept_by_addition = λ x o s h. if_else (text_eq x.name o) _ _ h;
}

abbrev found : Text → Text → Option Container
found name ip = some (record { name = name; ip_address = ip })

abbrev events : List (Status × Option Container)
events =
    (start, found (text "/db") (text "10.0.0.1"))
    ∷ (start, found (text "/web") (text "10.0.0.2"))
    ∷ (die, none)
    ∷ (stop, found (text "/db") (text "10.0.0.1"))
    ∷ (start, found (text "/web") (text "10.0.0.3"))
    ∷ []

serve-refines_example :
    (rs : List (Request Service)) × (serve same url events ≡ some rs)
    × (receive_all agent rs (λ _. none) (text "web") ≡ some (text "10.0.0.3"))
serve-refines_example =
    serve-refines same url agent events (text "web") (λ _. none) agent-IsAgent refl

-- Docker gives no address for a container that is stopped, and finds none that is destroyed: then
-- the name stays.
stays : serve same url ((stop, found (text "/db") []) ∷ (destroy, none) ∷ []) ≡ some []
unfolding serve
stays = refl

reversed : reverse_ip (text "10.0.0.1") ≡ some (text "1.0.0.10.in-addr.arpa")
unfolding reverse_ip
reversed = refl

reverse_panics : reverse_ip (text "10.0") ≡ none
unfolding reverse_ip
reverse_panics = refl

-- The second ping is answered.
connected : connect 3 (λ k. elim k [ zero ↦ false | suc _ ↦ true ]) 0 ≡ (true, 2)
unfolding connect
connected = refl

failed :
    consul_client same
      (λ _. status_code 500)
      url
      (text "deregister")
      (record { name = text "db"; address = [] })
    ≡ (deregister url (text "db") ∷ [], true)
unfolding consul_client
failed = refl

-- Without the variable TTL the default is overwritten by 0, beside an error.
abbrev urls_only : Environment
urls_only name = if text_eq name (text "TTL") then [] else text "http://host"

ttl_lost : read_settings urls_only ≡ (
  record { consul_url = text "http://host"; docker_url = text "http://host"; ttl = 0 },
  some (bad_value []),
)
unfolding read_settings
ttl_lost = refl
