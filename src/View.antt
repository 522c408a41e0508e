-- ===== src/View.antt =====
-- What the chat view shows. (frontend/src/components/chat/ChatView.tsx)
pub mod Markdown
pub mod Lossless
pub mod Matches
pub mod Links
pub mod Scroll
pub mod History
pub mod Loads
pub mod Place
pub mod Appended
pub mod Animated
pub mod Dividers
pub mod Divided
pub mod Bubbles
pub mod Jump
