-- ===== src/Auth/Told.antt =====
-- An error that the client is told of stays an error.
use sanzu.Outcome.{Outcome, ok, err, panic, Io, Yields}
use sanzu.Proto.Stream.{Stream}
use sanzu.Proto.Events.{Wire}
use sanzu.Session.{tell_client, told_client}

tell_client-Yields :
    (w : Wire) {A : Type 0} (P : A → Type 0) (r : Outcome A) (s : Stream)
    → Yields P (r, s)
    → Yields P (tell_client w r s)
unfolding tell_client
tell_client-Yields w P (ok a) s h = h
tell_client-Yields w P (err chain) s h = tt
tell_client-Yields w P (panic why) s h = tt

pub told_client-Yields :
    (w : Wire) {A : Type 0} (P : A → Type 0) (m : Io Stream A) (s : Stream)
    → Yields P (m s)
    → Yields P (told_client w m s)
unfolding told_client
told_client-Yields w P m s h = tell_client-Yields w P (m s).0 (m s).1 h
