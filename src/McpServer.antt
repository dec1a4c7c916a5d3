-- ===== src/McpServer.antt =====
-- internal/mcpserver: the tools that clients call, and who may call them.
pub mod Principal
pub mod Tools
pub mod Commands
pub mod Watch
pub mod Access
pub mod Attribution
mod Examples
