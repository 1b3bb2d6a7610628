-- ===== src/Session/Turns.antt =====
-- A turn of a server and a turn of a client whose streams are joined.
use sanzu.Prelude.{ℕ, suc, ◌≡◌, refl, sym, ap, ◌∙◌, String, Bool, List, [], ◌++◌, Option}
use sanzu.Prelude.Bytes.{LittleEndianLaws}
use sanzu.Outcome.{ok, Io, ◌>>◌}
use sanzu.Messages.Server.{ServerOk, ServerEvent}
use sanzu.Messages.Client.{ClientOk, ClientEvent}
use sanzu.Proto.Stream.{read_exact}
use sanzu.Proto.Tunnel.{recv}
use sanzu.Proto.Events.{
  Wire, recv_client_msg_type, recv_client_msg_or_error, recv_server_msg_type,
  recv_server_msg_or_error,
}
use sanzu.Proto.Relay.{recv_server_type-eq, recv_client_type-eq}
use sanzu.Proto.Frames.{Fits, server_answer, client_answer, send_server-eq, send_client-eq}
use sanzu.Session.Server.{ServerArgs}
use sanzu.Session.Serving.{
  Duties, Serving, msgs_client, gather, obey_client, serve_turn, note_timing,
}
use sanzu.Session.Serving
use sanzu.Session.Blind.{gather-Blind}
use sanzu.Session.Viewing.{view_all, step, poll, tell, hear, view_turn}
use sanzu.Session.Viewer.{Viewer, Viewing, Source, msgs_srv}
use sanzu.Session.Viewing
use sanzu.Session.Offers.{server_frame, client_frame}

-- What a server does with the messages of a turn.
module _ {G V U : Type 0} (w : Wire) (duties : Duties G V U) (args : ServerArgs) where
  abbrev pub serve_rest : String → List (Option ClientEvent) → Io (Serving G V U) (Unit {0})
  serve_rest timing msgs = do obey_client w duties args msgs; note_timing w duties args timing

-- A server, and a client, to which nothing has come.
abbrev pub unheard : {G V U : Type 0} → Serving G V U → Serving G V U
unheard s = record s { stream = record s.stream { input = [] } }

abbrev pub unheard_client : {C D U : Type 0} → Viewing C D U → Viewing C D U
unheard_client c = record c { stream = record c.stream { input = [] } }

module _ (w : Wire) (order : LittleEndianLaws w.order) where
  serve_turn-eq :
      {G V U : Type 0} (duties : Duties G V U) (args : ServerArgs) (control : Bool)
      (timing : String) (n : ℕ) (s t : Serving G V U) (events : List (Option ServerEvent))
      (msgs : List (Option ClientEvent)) (rest : List ℕ)
      → Fits w.client_codec (client_answer (ClientOk.msgsclient msgs))
      → gather w duties args control s ≡ (ok events, t)
      → t.stream.writes_left ≡ suc n
      → t.stream.input ≡ client_frame w order (ClientOk.msgsclient msgs) ++ rest
      → serve_turn w duties args control timing s
        ≡ serve_rest w duties args timing msgs (record t {
          stream = record {
            input = rest;
            output = t.stream.output ++ server_frame w order (ServerOk.msgssrv events);
            writes_left = n;
          };
        })
  unfolding serve_turn Serving.tell Serving.hear Serving.on_stream
  serve_turn-eq duties args control timing n s t events msgs rest fits gathered left e = rw (
    gathered,
    send_server-eq w order (ServerOk.msgssrv events) n t.stream left,
    recv_client_type-eq w order msgs_client (ClientOk.msgsclient msgs)
        (record {
          input = t.stream.input;
          output = t.stream.output ++ server_frame w order (ServerOk.msgssrv events);
          writes_left = n;
        })
        rest fits e,
  )

  view_turn-eq :
      {C D U : Type 0} (v : Viewer C D U) (source : Source) (n : ℕ) (s : Viewing C D U) (c : C)
      (events : List (Option ServerEvent)) (msgs : List (Option ClientEvent)) (rest : List ℕ)
      → Fits w.server_codec (server_answer (ServerOk.msgssrv events))
      → v.poll_events s.window ≡ (ok msgs, c)
      → s.stream.writes_left ≡ suc n
      → s.stream.input ≡ server_frame w order (ServerOk.msgssrv events) ++ rest
      → view_turn w v source s
        ≡ view_all w v source events (record s {
          stream = record {
            input = rest;
            output = s.stream.output ++ client_frame w order (ClientOk.msgsclient msgs);
            writes_left = n;
          };
          window = c;
          areas = [];
        })
  unfolding view_turn poll tell hear Viewing.on_stream Viewing.on_window step
  view_turn-eq v source n s c events msgs rest fits polled left e = rw (
    polled,
    send_client-eq w order (ClientOk.msgsclient msgs) n s.stream left,
    recv_server_type-eq w order msgs_srv (ServerOk.msgssrv events)
        (record {
          input = s.stream.input;
          output = s.stream.output ++ client_frame w order (ClientOk.msgsclient msgs);
          writes_left = n;
        })
        rest fits e,
  )

  -- With nothing to read, a turn has still written its message.
  serve_turn-dry :
      {G V U : Type 0} (duties : Duties G V U) (args : ServerArgs) (control : Bool)
      (timing : String) (n : ℕ) (s t : Serving G V U) (events : List (Option ServerEvent))
      → gather w duties args control s ≡ (ok events, t)
      → t.stream.writes_left ≡ suc n
      → t.stream.input ≡ []
      → (serve_turn w duties args control timing s).1.stream.output
        ≡ t.stream.output ++ server_frame w order (ServerOk.msgssrv events)
  unfolding serve_turn Serving.tell Serving.hear Serving.on_stream recv_client_msg_type
      recv_client_msg_or_error recv read_exact
  serve_turn-dry duties args control timing n s t events gathered left dry =
      rw (gathered, send_server-eq w order (ServerOk.msgssrv events) n t.stream left, dry)

  -- The same from a stream that has something to read: the gathering neither reads it nor writes.
  serve_turn-emptied :
      {G V U : Type 0} (duties : Duties G V U) (args : ServerArgs) (control : Bool)
      (timing : String) (n : ℕ) (s t : Serving G V U) (events : List (Option ServerEvent))
      → gather w duties args control s ≡ (ok events, t)
      → t.stream.writes_left ≡ suc n
      → (serve_turn w duties args control timing (unheard s)).1.stream.output
        ≡ t.stream.output ++ server_frame w order (ServerOk.msgssrv events)
  serve_turn-emptied duties args control timing n s t events gathered left =
      let same : t.stream ≡ s.stream =
        sym (ap (λ r. r.1.stream) gathered)
        ∙ ap (λ r. r.1.stream) (gather-Blind w duties args control s.stream s) in
      let u = record s.stream { input = [] } in
      serve_turn-dry duties args control timing n (unheard s) (record t { stream = u }) events
        (gather-Blind w duties args control u s
          ∙ ap (λ r. (r.0, record r.1 { stream = u })) gathered)
        (ap (λ v. v.writes_left) (sym same) ∙ left) refl
      ∙ ap (λ v. v.output ++ server_frame w order (ServerOk.msgssrv events)) (sym same)

  view_turn-dry :
      {C D U : Type 0} (v : Viewer C D U) (source : Source) (n : ℕ) (s : Viewing C D U) (c : C)
      (msgs : List (Option ClientEvent))
      → v.poll_events s.window ≡ (ok msgs, c)
      → s.stream.writes_left ≡ suc n
      → s.stream.input ≡ []
      → (view_turn w v source s).1.stream.output
        ≡ s.stream.output ++ client_frame w order (ClientOk.msgsclient msgs)
  unfolding view_turn poll tell hear Viewing.on_stream Viewing.on_window step recv_server_msg_type
      recv_server_msg_or_error recv read_exact
  view_turn-dry v source n s c msgs polled left dry =
      rw (polled, send_client-eq w order (ClientOk.msgsclient msgs) n s.stream left, dry)

  -- In a turn of a server and a turn of a client whose streams are joined (each has to read the one
  -- message that the other is to write, then something else), the server goes on with exactly the
  -- messages that the client polled, and the client with exactly those that the server gathered, in
  -- their order; each has read that one message and written one. Neither waits for the other before
  -- it writes: if nothing at all has come from the other, each has written that same message all the
  -- same. (The gathering and the polling succeed, the messages survive their encoding, are at most
  -- 100 MiB, and each peer takes a write.)
  pub serve_turn-view_turn :
      {G V U C D T : Type 0} (duties : Duties G V U) (args : ServerArgs) (viewer : Viewer C D T)
      (source : Source) (control : Bool) (timing : String) (n m : ℕ) (s t : Serving G V U)
      (c : Viewing C D T) (window : C) (events : List (Option ServerEvent))
      (msgs : List (Option ClientEvent)) (later_s later_c : List ℕ)
      → gather w duties args control s ≡ (ok events, t)
      → viewer.poll_events c.window ≡ (ok msgs, window)
      → Fits w.client_codec (client_answer (ClientOk.msgsclient msgs))
      → Fits w.server_codec (server_answer (ServerOk.msgssrv events))
      → t.stream.writes_left ≡ suc n
      → c.stream.writes_left ≡ suc m
      → t.stream.input ≡ client_frame w order (ClientOk.msgsclient msgs) ++ later_s
      → c.stream.input ≡ server_frame w order (ServerOk.msgssrv events) ++ later_c
      → (serve_turn w duties args control timing s
          ≡ serve_rest w duties args timing msgs (record t {
            stream = record {
              input = later_s;
              output = t.stream.output ++ server_frame w order (ServerOk.msgssrv events);
              writes_left = n;
            };
          }))
        × (view_turn w viewer source c
            ≡ view_all w viewer source events (record c {
              stream = record {
                input = later_c;
                output = c.stream.output ++ client_frame w order (ClientOk.msgsclient msgs);
                writes_left = m;
              };
              window = window;
              areas = [];
            }))
        × ((serve_turn w duties args control timing (unheard s)).1.stream.output
            ≡ t.stream.output ++ server_frame w order (ServerOk.msgssrv events))
        × ((view_turn w viewer source (unheard_client c)).1.stream.output
            ≡ c.stream.output ++ client_frame w order (ClientOk.msgsclient msgs))
  serve_turn-view_turn duties args viewer source control timing n m s t c window events msgs later_s
        later_c gathered polled fits_c fits_s left_s left_c in_s in_c =
      (
        serve_turn-eq duties args control timing n s t events msgs later_s fits_c gathered left_s
            in_s,
        view_turn-eq viewer source m c window events msgs later_c fits_s polled left_c in_c,
        serve_turn-emptied duties args control timing n s t events gathered left_s,
        view_turn-dry viewer source m (unheard_client c) window msgs polled left_c refl,
      )
