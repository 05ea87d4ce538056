-- ===== src/Event/Sharing.antt =====
-- IEventClientIPC.h, ClientIPC.cpp and EventSpace.h: what becomes of a client when one of its listeners
-- is destroyed.
use psi_shared.EventSpace.{EventSpace}
use psi_shared.Client.{Client}
