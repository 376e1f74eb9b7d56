-- ===== src/Chat/Redis/Tests.antt =====
-- Runs of chat-main/src/server/Redis.cpp.
use mprpc_main.Common.{List, [], ◌∷◌, codes}
use mprpc_main.Chat.Redis.Contexts.{Call, publishing, subscribing, replying}

abbrev calls : List Call
calls = subscribing (codes "a") ∷ replying ∷ publishing (codes "a") (codes "b") ∷ []
