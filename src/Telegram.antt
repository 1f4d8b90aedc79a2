-- ===== src/Telegram.antt =====
-- internal/telegram: trading by chat.
pub mod Parser
pub mod Bot
pub mod Safety
pub mod Chats
pub mod Shares
