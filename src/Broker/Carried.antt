-- ===== src/Broker/Carried.antt =====
-- The broker passes on what it reads, in order, whatever happens first.
use sanzu.Prelude.{
  ℕ, min, ◌≡◌, refl, sym, ◌∙◌, inl, inr, Bool, true, false, List, [], ◌∷◌, ◌++◌, take, drop,
  take-append-drop, append-nil, append_assoc,
}
use sanzu.Outcome.{Outcome, ok, err, panic}
use sanzu.Proto.Stream.{Stream, write_all-cases}
use sanzu.Broker.Forward.{
  Link, Ready, buffer_len, read, on_client, on_server, to_server, to_client, handle_ready,
  next_ready, loop_fwd_conn,
}

-- Nothing is lost where there was no error.
abbrev pub Whole : {A : Type 0} → Outcome A → List ℕ → Type 0
Whole (ok a) lost = lost ≡ []
Whole (err chain) lost = Unit
Whole (panic why) lost = Unit

-- What was read of one side is what was written to the other, and then what was lost.
pub record Carried {A : Type 0} (r : Outcome A) (from to from' to' : Stream) : Type 0 where
  pub sent : List ℕ
  pub lost : List ℕ
  pub taken : from.input ≡ sent ++ (lost ++ from'.input)
  pub given : to'.output ≡ to.output ++ sent
  pub whole : Whole r lost

-- In both directions.
pub record Carries {A : Type 0} (r : Outcome A) (link link' : Link) : Type 0 where
  pub from_client : Carried r link.client link.server link'.client link'.server
  pub from_server : Carried r link.server link.client link'.server link'.client

nothing : {A : Type 0} (r : Outcome A) (s t : Stream) → Whole r [] → Carried r s t s t
nothing r s t h = record {
  sent = [];
  lost = [];
  taken = refl;
  given = sym (append-nil t.output);
  whole = h;
}

Whole-nil : {A : Type 0} (r : Outcome A) → Whole r []
Whole-nil (ok a) = refl
Whole-nil (err chain) = tt
Whole-nil (panic why) = tt

still : {A : Type 0} (r : Outcome A) (link : Link) → Carries r link link
still r link = record {
  from_client = nothing r link.client link.server (Whole-nil r);
  from_server = nothing r link.server link.client (Whole-nil r);
}

-- A side that is not read, and what is written to the other stays.
unread :
    {A : Type 0} (r : Outcome A) (s t t' : Stream)
    → t'.output ≡ t.output
    → Whole r []
    → Carried r s t s t'
unread r s t t' e h = record {
  sent = [];
  lost = [];
  taken = refl;
  given = e ∙ sym (append-nil t.output);
  whole = h;
}

-- Bytes that were read of the client, whose input was `before`.
to_server-Carries :
    (bytes before : List ℕ) (link : Link)
    → before ≡ bytes ++ link.client.input
    → Carries
        (to_server bytes link).0
        (record link { client = record link.client { input = before } })
        (to_server bytes link).1
unfolding to_server on_server
to_server-Carries [] before link e = record {
  from_client = record {
    sent = [];
    lost = [];
    taken = e;
    given = sym (append-nil link.server.output);
    whole = refl;
  };
  from_server =
      unread (ok true) link.server (record link.client { input = before }) link.client refl refl;
}
to_server-Carries (b ∷ bytes) before link e = elim (write_all-cases (b ∷ bytes) link.server) [
  | inl closed ↦ rw (closed) (record {
    from_client = record {
      sent = [];
      lost = b ∷ bytes;
      taken = e;
      given = sym (append-nil link.server.output);
      whole = tt;
    };
    from_server =
        unread (err _) link.server (record link.client { input = before }) link.client refl tt;
  })
  | inr written ↦ rw (written.1) (record {
    from_client = record { sent = b ∷ bytes; lost = []; taken = e; given = refl; whole = refl };
    from_server = record {
      sent = [];
      lost = [];
      taken = refl;
      given = sym (append-nil link.client.output);
      whole = refl;
    };
  })
]

-- Bytes that were read of the server, whose input was `before`.
to_client-Carries :
    (bytes before : List ℕ) (link : Link)
    → before ≡ bytes ++ link.server.input
    → Carries
        (to_client bytes link).0
        (record link { server = record link.server { input = before } })
        (to_client bytes link).1
unfolding to_client on_client
to_client-Carries [] before link e = record {
  from_server = record {
    sent = [];
    lost = [];
    taken = e;
    given = sym (append-nil link.client.output);
    whole = refl;
  };
  from_client =
      unread (ok true) link.client (record link.server { input = before }) link.server refl refl;
}
to_client-Carries (b ∷ bytes) before link e = elim (write_all-cases (b ∷ bytes) link.client) [
  | inl closed ↦ rw (closed) (record {
    from_server = record {
      sent = [];
      lost = b ∷ bytes;
      taken = e;
      given = sym (append-nil link.client.output);
      whole = tt;
    };
    from_client =
        unread (err _) link.client (record link.server { input = before }) link.server refl tt;
  })
  | inr written ↦ rw (written.1) (record {
    from_server = record { sent = b ∷ bytes; lost = []; taken = e; given = refl; whole = refl };
    from_client = record {
      sent = [];
      lost = [];
      taken = refl;
      given = sym (append-nil link.server.output);
      whole = refl;
    };
  })
]

handle_ready-Carries :
    (event : Ready) (link : Link)
    → Carries (handle_ready event link).0 link (handle_ready event link).1
unfolding handle_ready on_client on_server read
handle_ready-Carries (Ready.client_ready n) link =
    to_server-Carries (take (min n buffer_len) link.client.input) link.client.input
      (record link {
        client = record link.client { input = drop (min n buffer_len) link.client.input };
      })
      (sym (take-append-drop (min n buffer_len) link.client.input))
handle_ready-Carries (Ready.server_ready n) link =
    to_client-Carries (take (min n buffer_len) link.server.input) link.server.input
      (record link {
        server = record link.server { input = drop (min n buffer_len) link.server.input };
      })
      (sym (take-append-drop (min n buffer_len) link.server.input))
handle_ready-Carries (Ready.client_failed why) link = still (err _) link
handle_ready-Carries (Ready.server_failed why) link = still (err _) link
handle_ready-Carries (Ready.poll_failed why) link = still (err _) link

-- One direction after the other step.
then-Carried :
    {A B : Type 0} (a : A) (r : Outcome B) (from to from' to' from'' to'' : Stream)
    → Carried (ok a) from to from' to'
    → Carried r from' to' from'' to''
    → Carried r from to from'' to''
then-Carried a r from to from' to' from'' to'' x y = record {
  sent = x.sent ++ y.sent;
  lost = y.lost;
  taken = x.taken ∙ rw (x.whole, y.taken, append_assoc x.sent y.sent (y.lost ++ from''.input)) refl;
  given = y.given ∙ rw (x.given, append_assoc to.output x.sent y.sent) refl;
  whole = y.whole;
}

next-Carries :
    (r : Outcome Bool) (link link' : Link) (rest : Outcome Bool × Link)
    → Carries r link link'
    → Carries rest.0 link' rest.1
    → Carries (next_ready r link' rest).0 link (next_ready r link' rest).1
unfolding next_ready
next-Carries (ok true) link link' rest x y = x
next-Carries (ok false) link link' rest x y = record {
  from_client =
      then-Carried false rest.0 link.client link.server link'.client link'.server _ _ x.from_client
        y.from_client;
  from_server =
      then-Carried false rest.0 link.server link.client link'.server link'.client _ _ x.from_server
        y.from_server;
}
next-Carries (err chain) link link' rest x y = x
next-Carries (panic why) link link' rest x y = x

-- Whatever the order in which the two sides are ready and however much they have, the broker has
-- written to each side exactly what it has read of the other, in order, as long as no call fails; and
-- when a call fails, it has written a beginning of it.
pub loop_fwd_conn-Carries :
    (events : List Ready) (link : Link)
    → Carries (loop_fwd_conn events link).0 link (loop_fwd_conn events link).1
unfolding loop_fwd_conn
loop_fwd_conn-Carries [] link = still (ok false) link
loop_fwd_conn-Carries (event ∷ events) link =
    next-Carries (handle_ready event link).0 link (handle_ready event link).1
      (loop_fwd_conn events (handle_ready event link).1) (handle_ready-Carries event link)
      (loop_fwd_conn-Carries events (handle_ready event link).1)
