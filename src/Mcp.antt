-- ===== src/Mcp.antt =====
-- apps/mcp/src: the MCP server's own logic.
pub mod RateLimit
