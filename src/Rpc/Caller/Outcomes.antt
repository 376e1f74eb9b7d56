-- ===== src/Rpc/Caller/Outcomes.antt =====
-- How a remote call ends, on every path of `CallMethod`.
use mprpc_main.Common.{
  ℕ, ◌+◌, ◌≡◌, ◌⊎◌, inl, inr, refl, ap, ap₂, ◌∙◌, ℤ, true, Option, none, some, List, [], ◌∷◌, ◌++◌,
  Bytes, length, drop, ◌==◌, if◌then◌else◌, arith, find_char, stoi, to_u16, substr, Lacks,
  find_char-append, take-append, drop-append, drop-drop, Bool-cases, sym,
}
use mprpc_main.Rpc.Wire.{RpcHeader, HeaderCodec, frame}
use mprpc_main.Rpc.Controller.{Controller}
use mprpc_main.Rpc.ZkClient.{ZooKeeper, get_data, method_path}
use mprpc_main.Rpc.Caller.{
  Kernel, Action, opened, connected, sent, closed, Call, Ending, finished, threw, Messages,
  parse_response, exchange_on, exchange, fail, call_address, call_colon, call_host, call_header,
  request_header, call_args, call_method,
}

without : ℕ → List ℕ → List ℕ
without fd [] = []
without fd (x ∷ xs) = if x == fd then xs else x ∷ without fd xs

-- The descriptors that a trace leaves open, begun with those of the list.
pub still_open : List ℕ → List Action → List ℕ
unfolding without
still_open fds [] = fds
still_open fds (opened fd ∷ t) = still_open (fd ∷ fds) t
still_open fds (connected fd ip port ∷ t) = still_open fds t
still_open fds (sent fd bytes ∷ t) = still_open fds t
still_open fds (closed fd ∷ t) = still_open (without fd fds) t

-- The call has failed and says so, or it has a response and left the controller alone.
abbrev pub Reported : Controller → Call → Type 0
Reported c call =
    ((call.response ≡ none) × (call.controller.failed ≡ true))
    ⊎ (((bytes : Bytes) × (call.response ≡ some bytes)) × (call.controller ≡ c))

abbrev pub Settled : Controller → Ending → Type 0
Settled c (finished call) = Reported c call × (still_open [] call.trace ≡ [])
Settled c threw = Unit {0}

module _ (codec : HeaderCodec) (zk : ZooKeeper) (kernel : Kernel) (c : Controller) where
  closes : (fd : ℕ) → still_open [] (opened fd ∷ closed fd ∷ []) ≡ []
  unfolding still_open
  closes fd = ground arith

  parse_response-Settled :
      (ms : Messages) (fd : ℕ) (t : List Action) (r : Option Bytes)
      → still_open [] (t ++ (closed fd ∷ [])) ≡ []
      → Settled c (parse_response codec zk kernel ms fd t c r)
  unfolding parse_response
  parse_response-Settled ms fd t none h = (inl (refl, refl), h)
  parse_response-Settled ms fd t (some bytes) h = elim (Bool-cases (ms.accepts_response bytes)) [
    | inl e ↦ rw e (inr ((bytes, refl), refl), h)
    | inr e ↦ rw e (inl (refl, refl), h)
  ]

  exchange_on-Settled :
      (ms : Messages) (request ip : Bytes) (port : ℕ) (o : Option ℕ)
      → Settled c (exchange_on codec zk kernel ms request ip port c o)
  unfolding exchange_on
  exchange_on-Settled ms request ip port none = (inl (refl, refl), unfold still_open in refl)
  exchange_on-Settled ms request ip port (some fd) = elim (Bool-cases (kernel.connect fd ip port)) [
    | inl e ↦ rw e (elim (Bool-cases (kernel.send fd request)) [
      | inl f ↦ rw f (
          parse_response-Settled ms fd (opened fd ∷ connected fd ip port ∷ sent fd request ∷ [])
            (kernel.recv fd 1024) (unfold still_open in closes fd))
      | inr f ↦ rw f (inl (refl, refl), unfold still_open in closes fd)
    ])
    | inr e ↦ rw e (inl (refl, refl), closes fd)
  ]

  failed-Settled : (reason : Bytes) → Settled c (fail reason [] c)
  unfolding still_open
  failed-Settled reason = (inl (refl, refl), refl)

  call_address-Settled :
      (ms : Messages) (request ip : Bytes) (port : Option ℤ)
      → Settled c (call_address codec zk kernel ms request ip port c)
  unfolding call_address exchange
  call_address-Settled ms request ip none = tt
  call_address-Settled ms request ip (some port) =
      exchange_on-Settled ms request ip (to_u16 port) kernel.socket

  call_colon-Settled :
      (ms : Messages) (request host : Bytes) (o : Option ℕ)
      → Settled c (call_colon codec zk kernel ms request host o c)
  unfolding call_colon
  call_colon-Settled ms request host none = failed-Settled _
  call_colon-Settled ms request host (some idx) =
      call_address-Settled ms request (substr 0 idx host) (stoi (drop (idx + 1) host))

  call_host-Settled :
      (ms : Messages) (request : Bytes) (o : Option Bytes)
      → Settled c (call_host codec zk kernel ms request o c)
  unfolding call_host
  call_host-Settled ms request none = tt
  call_host-Settled ms request (some []) = failed-Settled _
  call_host-Settled ms request (some (h ∷ host)) =
      call_colon-Settled ms request (h ∷ host) (find_char b':' (h ∷ host))

  call_header-Settled :
      (ms : Messages) (tree : zk.Tree) (header : RpcHeader) (args : Bytes) (o : Option Bytes)
      → Settled c (call_header codec zk kernel ms tree header args o c)
  unfolding call_header
  call_header-Settled ms tree header args none = failed-Settled _
  call_header-Settled ms tree header args (some hs) =
      call_host-Settled ms (frame hs args)
        (get_data zk tree (method_path zk header.service_name header.method_name))

  call_args-Settled :
      (ms : Messages) (tree : zk.Tree) (service method : Bytes) (o : Option Bytes)
      → Settled c (call_args codec zk kernel ms tree service method o c)
  unfolding call_args
  call_args-Settled ms tree service method none = failed-Settled _
  call_args-Settled ms tree service method (some args) =
      call_header-Settled ms tree (request_header codec zk kernel service method args) args
        (codec.serialize (request_header codec zk kernel service method args))

  -- Unless an exception leaves it, `CallMethod` closes every socket that it opened, and either it
  -- gives no response and the controller has failed, or it gives a response and the controller is
  -- as before.
  pub call_method-Settled :
      (ms : Messages) (tree : zk.Tree) (service method : Bytes)
      → Settled c (call_method codec zk kernel ms tree service method c)
  unfolding call_method
  call_method-Settled ms tree service method =
      call_args-Settled ms tree service method ms.serialized_request

  call_host-address :
      (ms : Messages) (request host_ip port_text : Bytes) (h : ℕ) (port : ℤ)
      → Lacks b':' (h ∷ host_ip)
      → stoi port_text ≡ some port
      → call_host codec zk kernel ms request (some ((h ∷ host_ip) ++ (b':' ∷ port_text))) c
        ≡ exchange codec zk kernel ms request (h ∷ host_ip) (to_u16 port) c
  unfolding call_host call_address
  call_host-address ms request host_ip port_text h port l e =
      ap (λ o. call_colon codec zk kernel ms request host o c)
        (find_char-append b':' (h ∷ host_ip) port_text l)
      ∙ ap₂ (λ i p. call_address codec zk kernel ms request i p c)
          (take-append (length (h ∷ host_ip)) (h ∷ host_ip) (b':' ∷ port_text) refl)
          (ap stoi behind ∙ e)
    where
      host : Bytes
      host = (h ∷ host_ip) ++ (b':' ∷ port_text)

      behind : drop (length (h ∷ host_ip) + 1) host ≡ port_text
      behind =
          sym (drop-drop 1 (length (h ∷ host_ip)) (length (h ∷ host_ip) + 1) host refl)
          ∙ ap (drop 1) (drop-append (length (h ∷ host_ip)) (h ∷ host_ip) (b':' ∷ port_text) refl)

  exchange-succeeds :
      (ms : Messages) (request ip bytes : Bytes) (fd port : ℕ)
      → kernel.socket ≡ some fd
      → kernel.connect fd ip port ≡ true
      → kernel.send fd request ≡ true
      → kernel.recv fd 1024 ≡ some bytes
      → ms.accepts_response bytes ≡ true
      → exchange codec zk kernel ms request ip port c
        ≡ finished (record {
          controller = c;
          trace = opened fd ∷ connected fd ip port ∷ sent fd request ∷ closed fd ∷ [];
          response = some bytes;
        })
  unfolding exchange exchange_on parse_response
  exchange-succeeds ms request ip bytes fd port e1 e2 e3 e4 e5 =
      rw (e1, exchange_on, e2, e3, e4, parse_response, e5)

  -- Up to `socket`: the frame, and the address found in ZooKeeper.
  pub call_method-dials :
      (ms : Messages) (tree : zk.Tree) (service method args hs host_ip port_text : Bytes) (h : ℕ)
      (port : ℤ)
      → ms.serialized_request ≡ some args
      → codec.serialize (request_header codec zk kernel service method args) ≡ some hs
      → get_data zk tree (method_path zk service method)
        ≡ some ((h ∷ host_ip) ++ (b':' ∷ port_text))
      → Lacks b':' (h ∷ host_ip)
      → stoi port_text ≡ some port
      → call_method codec zk kernel ms tree service method c
        ≡ exchange codec zk kernel ms (frame hs args) (h ∷ host_ip) (to_u16 port) c
  unfolding call_method
  call_method-dials ms tree service method args hs ip port_text h port e1 e2 e3 l e4 =
      rw (e1, call_args, e2, call_header, e3)
        (call_host-address ms (frame hs args) ip port_text h port l e4)

  -- With a provider's address `ip:port` under the method's path, and calls of the kernel that
  -- succeed, `CallMethod` connects to that address, sends one frame of header and arguments, closes
  -- the socket, and gives the bytes that `recv` delivered as the response.
  pub call_method-succeeds :
      (ms : Messages) (tree : zk.Tree) (service method args hs host_ip port_text bytes : Bytes)
      (h fd : ℕ) (port : ℤ)
      → ms.serialized_request ≡ some args
      → codec.serialize (request_header codec zk kernel service method args) ≡ some hs
      → get_data zk tree (method_path zk service method)
        ≡ some ((h ∷ host_ip) ++ (b':' ∷ port_text))
      → Lacks b':' (h ∷ host_ip)
      → stoi port_text ≡ some port
      → kernel.socket ≡ some fd
      → kernel.connect fd (h ∷ host_ip) (to_u16 port) ≡ true
      → kernel.send fd (frame hs args) ≡ true
      → kernel.recv fd 1024 ≡ some bytes
      → ms.accepts_response bytes ≡ true
      → call_method codec zk kernel ms tree service method c
        ≡ finished (record {
          controller = c;
          trace =
              opened fd
              ∷ connected fd (h ∷ host_ip) (to_u16 port)
              ∷ sent fd (frame hs args)
              ∷ closed fd
              ∷ [];
          response = some bytes;
        })
  call_method-succeeds ms tree service method args hs ip port_text bytes h fd port e1 e2 e3 l e4 e5
        e6 e7 e8 e9 =
      call_method-dials ms tree service method args hs ip port_text h port e1 e2 e3 l e4
      ∙ exchange-succeeds ms (frame hs args) (h ∷ ip) bytes fd (to_u16 port) e5 e6 e7 e8 e9
